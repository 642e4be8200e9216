-- ===== src/Network/Flow.antt =====
-- The packets between the pool and the UDP handler: src/network/TlayerPacketRecycler.hpp, `fill` of
-- src/network/TlayerPacket.cpp, the callback of src/network/PcapHandler.cpp and the loop of
-- src/network/TlayerDispatcher.cpp, as steps of threads that run side by side.
use callx.Container.Queue.{
  Queue, Popped, waits, deactivated, popped, empty, push, wait_and_pop, deactivate,
}
use callx.Network.Frame.{TlayerPacket, parse_netlayer}
use callx.Network.SocketAddress.{tp_udp}
use callx.Prelude.{
  ℕ, suc, ◌+◌, ◌^◌, ◌<◌, ◌≡◌, List, [], ◌∷◌, ◌++◌, Option, none, some, length, ltb, ◌==◌,
  if◌then◌else◌,
}

-- The queues, and the `tlayerPacket` of the dispatcher, which lives outside its loop; for the statements
-- also the number of the packets that the threads behind them hold, the frames captured and those that
-- the UDP handler took, the latest last.
pub record Flow (A : Type 0) : Type 0 where
  pub tlayer_packet_queue : Queue (TlayerPacket A)
  pub pcap_packet_queue : Queue (TlayerPacket A)
  pub udp_packet_queue : Queue (TlayerPacket A)
  pub tlayer_packet : Option (TlayerPacket A)
  pub held_behind : ℕ
  pub frames_captured : List (TlayerPacket A)
  pub frames_taken : List (TlayerPacket A)

-- The callback has no packet and waits, drops the frame, or has stored it.
pub data Captured (A : Type 0) : Type 0 where
  blocked : Captured A
  dropped : Captured A
  stored : Flow A → Captured A

module _ {A : Type 0} where
  -- `fill`, whose `memcpy` leaves what the buffer holds behind the frame.
  unfoldable pub fill : ℕ → (ℕ → ℕ) → TlayerPacket A → TlayerPacket A
  fill caplen bytes p = record p {
    caplen = caplen;
    buffer = λ i. if ltb i caplen then bytes i else p.buffer i;
  }

  -- The callback of `PcapHandler`.
  abbrev pub store : ℕ → (ℕ → ℕ) → Popped (TlayerPacket A) → Flow A → Captured A
  store caplen bytes waits f = blocked
  store caplen bytes deactivated f = dropped
  store caplen bytes (popped p rest) f =
      let frame = fill caplen bytes p in
      stored (record f {
        tlayer_packet_queue = rest;
        pcap_packet_queue = push frame f.pcap_packet_queue;
        frames_captured = f.frames_captured ++ frame ∷ [];
      })

  unfoldable pub callback : ℕ → (ℕ → ℕ) → Flow A → Captured A
  callback caplen bytes f = store caplen bytes (wait_and_pop f.tlayer_packet_queue) f

  -- The deleter of a packet: it goes back to the pool.
  unfoldable pub recycle : TlayerPacket A → Flow A → Flow A
  recycle p f = record f { tlayer_packet_queue = push p f.tlayer_packet_queue }

  -- The state after the pool was filled.
  abbrev pub filled_pool : Queue (TlayerPacket A) → Flow A
  filled_pool pool = record {
    tlayer_packet_queue = pool;
    pcap_packet_queue = empty;
    udp_packet_queue = empty;
    tlayer_packet = none;
    held_behind = 0;
    frames_captured = [];
    frames_taken = [];
  }

  abbrev pub held : Option (TlayerPacket A) → ℕ
  held none = 0
  held (some p) = 1

  abbrev pub packets : Flow A → ℕ
  packets f =
      length f.tlayer_packet_queue.items
      + length f.pcap_packet_queue.items
      + length f.udp_packet_queue.items
      + held f.tlayer_packet
      + f.held_behind

  abbrev release_held : Option (TlayerPacket A) → Flow A → Flow A
  release_held none f = f
  release_held (some p) f = recycle p (record f { tlayer_packet = none })

  -- The dispatcher's pointer gives up what it holds, which its deleter brings to the pool.
  unfoldable pub release : Flow A → Flow A
  release f = release_held f.tlayer_packet f

module _ {A : Type 0} (address_of : (ℕ → ℕ) → A) where
  -- A frame that is not UDP, or not parsed, stays in `tlayerPacket`.
  abbrev sort_parsed : TlayerPacket A → Option (TlayerPacket A) → Flow A → Flow A
  sort_parsed p none f = record f { tlayer_packet = some p }
  sort_parsed p (some parsed) f =
      if parsed.dst.proto == tp_udp
      then record f { udp_packet_queue = push parsed f.udp_packet_queue }
      else record f { tlayer_packet = some parsed }

  -- The assignment in `waitAndPop` brings the packet held so far back to the pool.
  abbrev sort_popped : Popped (TlayerPacket A) → Flow A → Flow A
  sort_popped waits f = f
  sort_popped deactivated f = f
  sort_popped (popped p rest) f =
      sort_parsed p (parse_netlayer address_of p) (release (record f { pcap_packet_queue = rest }))

  -- A round of `TlayerDispatcher::worker`; nothing where the queue waits or is deactivated.
  unfoldable pub dispatch_round : Flow A → Flow A
  dispatch_round f = sort_popped (wait_and_pop f.pcap_packet_queue) f

  -- What the threads do, in any order; `end_sorting` is the end of the dispatcher's `worker`. `caplen`
  -- has 32 bits.
  pub data Step : Flow A → Flow A → Type 0 where
    capture :
        (caplen : ℕ) (bytes : ℕ → ℕ) (f g : Flow A)
        → caplen < 2 ^ 32
        → callback caplen bytes f ≡ stored g
        → Step f g
    sort : (f : Flow A) → Step f (dispatch_round f)
    take :
        (f : Flow A) (p : TlayerPacket A) (rest : Queue (TlayerPacket A))
        → wait_and_pop f.udp_packet_queue ≡ popped p rest
        → Step f (record f {
          udp_packet_queue = rest;
          held_behind = f.held_behind + 1;
          frames_taken = f.frames_taken ++ p ∷ [];
        })
    give_back :
        (f : Flow A) (p : TlayerPacket A) (n : ℕ)
        → f.held_behind ≡ suc n
        → Step f (recycle p (record f { held_behind = n }))
    end_sorting : (f : Flow A) → Step f (release f)
    stop_sorting :
        (f : Flow A) → Step f (record f { pcap_packet_queue = deactivate f.pcap_packet_queue })
    stop_taking :
        (f : Flow A) → Step f (record f { udp_packet_queue = deactivate f.udp_packet_queue })

  pub data Steps : Flow A → Flow A → Type 0 where
    stop : (f : Flow A) → Steps f f
    then_step : (f g h : Flow A) → Steps f g → Step g h → Steps f h
