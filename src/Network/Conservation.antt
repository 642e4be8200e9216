-- ===== src/Network/Conservation.antt =====
-- The packets between the pool and the UDP handler are neither lost nor doubled, and the frames keep
-- their order: src/network/PcapHandler.cpp, TlayerDispatcher.cpp and TlayerPacketRecycler.hpp.
use callx.Container.Queue.{
  Queue, Popped, waits, deactivated, popped, push, wait_and_pop, empty, deactivate,
}
use callx.Container.Pops.{popped-items, length-push, Popped-cases}
use callx.Main.Running.{fill_pool}
use callx.Network.Dispatcher.{dispatch, is_udp_frame, or_frame, udp_frames, items-dispatch}
use callx.Network.Flow.{
  Flow, stored, store, callback, fill, recycle, dispatch_round, Step, capture, sort, take,
  give_back, end_sorting, stop_sorting, stop_taking, Steps, stop, then_step, filled_pool, packets,
  held, release,
}
use callx.Network.Frame.{TlayerPacket, parse_netlayer}
use callx.Network.SocketAddress.{tp_udp}
use callx.Prelude.{
  ℕ, zero, suc, ◌+◌, ◌^◌, ◌<◌, ◌≡◌, ◌⊎◌, refl, sym, ap, ◌∙◌, subst, pos, inl, inr, true, List, [],
  none, some, ◌∷◌, ◌++◌, arith, All, All-append, length, Option-cases, Bool-cases, if◌then◌else◌,
  ◌==◌,
}
use mathlib.Core.List.{append_assoc}

module _ {A : Type 0} (address_of : (ℕ → ℕ) → A) where
  udp_frames-append :
      (ps qs : List (TlayerPacket A))
      → udp_frames address_of (ps ++ qs) ≡ udp_frames address_of ps ++ udp_frames address_of qs
  udp_frames-append [] qs = refl
  udp_frames-append (p ∷ ps) qs =
      ap
        (λ r.
          (if is_udp_frame address_of p
            then or_frame address_of p (parse_netlayer address_of p) ∷ []
            else [])
          ++ r)
        (udp_frames-append ps qs)
      ∙ sym (append_assoc _ (udp_frames address_of ps) _)

  -- So many packets in all, the pool active, and the frames in order.
  pub record Conserves (n : ℕ) (f : Flow A) : Type 0 where
    pub number : packets f ≡ n
    pub pool_active : f.tlayer_packet_queue.activated ≡ true
    pub lengths : All (λ p. p.caplen < 2 ^ 32) f.pcap_packet_queue.items
    pub order :
        f.frames_taken
          ++ (f.udp_packet_queue.items ++ udp_frames address_of f.pcap_packet_queue.items)
        ≡ udp_frames address_of f.frames_captured

  -- What is left as it was when the dispatcher gives up what it holds.
  record Released (f g : Flow A) : Type 0 where
    pub number : packets g ≡ packets f
    pub none_held : g.tlayer_packet ≡ none
    pub pool_active : g.tlayer_packet_queue.activated ≡ f.tlayer_packet_queue.activated
    pub waiting : g.pcap_packet_queue ≡ f.pcap_packet_queue
    pub sorted : g.udp_packet_queue ≡ f.udp_packet_queue
    pub captured : g.frames_captured ≡ f.frames_captured
    pub taken : g.frames_taken ≡ f.frames_taken

  release-none : (f : Flow A) → f.tlayer_packet ≡ none → release f ≡ f
  unfolding release
  release-none f e = simp (release, e)

  release-some :
      (f : Flow A) (p : TlayerPacket A)
      → f.tlayer_packet ≡ some p
      → release f ≡ recycle p (record f { tlayer_packet = none })
  unfolding release
  release-some f p e = simp (release, e)

  release-Released : (f : Flow A) → Released f (release f)
  unfolding recycle push
  release-Released f = elim (Option-cases f.tlayer_packet) [
    | inl e ↦ subst (Released f) (sym (release-none f e)) (record {
      number = refl;
      none_held = e;
      pool_active = refl;
      waiting = refl;
      sorted = refl;
      captured = refl;
      taken = refl;
    })
    | inr (p, e) ↦ subst (Released f) (sym (release-some f p e)) (record {
      number = omega (arith, length-push p f.tlayer_packet_queue, ap held e);
      none_held = refl;
      pool_active = refl;
      waiting = refl;
      sorted = refl;
      captured = refl;
      taken = refl;
    })
  ]

  release-Conserves : (n : ℕ) (f : Flow A) → Conserves n f → Conserves n (release f)
  release-Conserves n f c =
      let r = release-Released f in
      record {
        number = r.number ∙ c.number;
        pool_active = r.pool_active ∙ c.pool_active;
        lengths = subst (λ q. All (λ p. p.caplen < 2 ^ 32) q.items) (sym r.waiting) c.lengths;
        order = rw (r.taken, r.sorted, r.waiting, r.captured) c.order;
      }

  -- What a round that takes a packet does to it: the dispatcher holds it, or it is pushed.
  dispatch_round_cases :
      (f : Flow A) (p : TlayerPacket A) (rest : Queue (TlayerPacket A))
      → wait_and_pop f.pcap_packet_queue ≡ popped p rest
      → ((kept : TlayerPacket A) × (dispatch_round address_of f
            ≡ record (release (record f { pcap_packet_queue = rest })) {
              tlayer_packet = some kept;
            })
          × (dispatch address_of p f.udp_packet_queue ≡ f.udp_packet_queue))
        ⊎ ((parsed : TlayerPacket A) × (dispatch_round address_of f
              ≡ record (release (record f { pcap_packet_queue = rest })) {
                udp_packet_queue =
                    push parsed (release (record f { pcap_packet_queue = rest })).udp_packet_queue;
              })
            × (dispatch address_of p f.udp_packet_queue ≡ push parsed f.udp_packet_queue))
  unfolding dispatch_round dispatch
  dispatch_round_cases f p rest h = elim (Option-cases (parse_netlayer address_of p)) [
    | inl e ↦ inl (p, simp (dispatch_round, h, e), simp (dispatch, e))
    | inr (parsed, e) ↦ elim (Bool-cases (parsed.dst.proto == tp_udp)) [
      | inl u ↦ inr (parsed, simp (dispatch_round, h, e, u), simp (dispatch, e, u))
      | inr u ↦ inl (parsed, simp (dispatch_round, h, e, u), simp (dispatch, e, u))
    ]
  ]

  -- The frames behind those that the UDP handler has, after one was sorted.
  sorted-order :
      (f : Flow A) (p : TlayerPacket A) (rest : List (TlayerPacket A)) (q : Queue (TlayerPacket A))
      → f.pcap_packet_queue.items ≡ p ∷ rest
      → p.caplen < 2 ^ 32
      → dispatch address_of p f.udp_packet_queue ≡ q
      → q.items ++ udp_frames address_of rest
        ≡ f.udp_packet_queue.items ++ udp_frames address_of f.pcap_packet_queue.items
  sorted-order f p rest q e l h =
      ap (λ r. r.items ++ udp_frames address_of rest) (sym h)
      ∙ ap (λ xs. xs ++ udp_frames address_of rest)
          (items-dispatch address_of p f.udp_packet_queue l)
      ∙ append_assoc f.udp_packet_queue.items _ (udp_frames address_of rest)
      ∙ ap (λ xs. f.udp_packet_queue.items ++ udp_frames address_of xs) (sym e)

  no_round :
      (f : Flow A)
      → (wait_and_pop f.pcap_packet_queue ≡ waits)
        ⊎ (wait_and_pop f.pcap_packet_queue ≡ deactivated)
      → dispatch_round address_of f ≡ f
  unfolding dispatch_round
  no_round f (inl e) = simp (dispatch_round, e)
  no_round f (inr e) = simp (dispatch_round, e)

  -- The order once the dispatcher has let go of a packet, and queued it or not.
  round-order :
      (f v : Flow A) (p : TlayerPacket A) (rest q : Queue (TlayerPacket A)) (n : ℕ)
      → Conserves n f
      → Released (record f { pcap_packet_queue = rest }) v
      → f.pcap_packet_queue.items ≡ p ∷ rest.items
      → p.caplen < 2 ^ 32
      → dispatch address_of p f.udp_packet_queue ≡ q
      → v.frames_taken ++ (q.items ++ udp_frames address_of v.pcap_packet_queue.items)
        ≡ udp_frames address_of v.frames_captured
  round-order f v p rest q n c r items small e =
      rw (r.taken, r.waiting, r.captured)
        (ap (λ xs. f.frames_taken ++ xs) (sorted-order f p rest.items q items small e) ∙ c.order)

  dispatch_round-Conserves :
      (n : ℕ) (f : Flow A) → Conserves n f → Conserves n (dispatch_round address_of f)
  unfolding push
  dispatch_round-Conserves n f c = elim (Popped-cases (wait_and_pop f.pcap_packet_queue)) [
    | inl e ↦ subst (Conserves n) (sym (no_round f e)) c
    | inr (p, rest, e) ↦
        let (items, active) = popped-items f.pcap_packet_queue p rest e in
        let (small, smaller) = subst (All (λ p. p.caplen < 2 ^ 32)) items c.lengths in
        let fewer : length f.pcap_packet_queue.items ≡ suc (length rest.items) = ap length items in
        let v = release (record f { pcap_packet_queue = rest }) in
        let r = release-Released (record f { pcap_packet_queue = rest }) in
        let lengths = subst (λ q. All (λ p. p.caplen < 2 ^ 32) q.items) (sym r.waiting) smaller in
        let none_held : held v.tlayer_packet ≡ 0 = ap held r.none_held in
        elim (dispatch_round_cases f p rest e) [
          | inl (kept, round, same) ↦ subst (Conserves n) (sym round) (record {
            number = omega (arith, r.number, c.number, fewer, none_held);
            pool_active = r.pool_active ∙ c.pool_active;
            lengths = lengths;
            order = rw r.sorted (round-order f v p rest f.udp_packet_queue n c r items small same);
          })
          | inr (parsed, round, more) ↦ subst (Conserves n) (sym round) (record {
            number = omega (
              arith,
              length-push parsed v.udp_packet_queue,
              r.number,
              c.number,
              fewer,
              none_held,
            );
            pool_active = r.pool_active ∙ c.pool_active;
            lengths = lengths;
            order =
                rw r.sorted
                  (round-order f v p rest (push parsed f.udp_packet_queue) n c r items small more);
          })
        ]
  ]

  -- A frame at the end of the queue.
  captured-order :
      (taken sorted : List (TlayerPacket A)) (queued captured : List (TlayerPacket A))
      (frame : TlayerPacket A)
      → taken ++ (sorted ++ udp_frames address_of queued) ≡ udp_frames address_of captured
      → taken ++ (sorted ++ udp_frames address_of (queued ++ frame ∷ []))
        ≡ udp_frames address_of (captured ++ frame ∷ [])
  captured-order taken sorted queued captured frame h =
      let last = udp_frames address_of (frame ∷ []) in
      ap (λ xs. taken ++ (sorted ++ xs)) (udp_frames-append queued (frame ∷ []))
      ∙ ap (λ xs. taken ++ xs) (sym (append_assoc sorted (udp_frames address_of queued) last))
      ∙ sym (append_assoc taken (sorted ++ udp_frames address_of queued) last)
      ∙ ap (λ xs. xs ++ last) h
      ∙ sym (udp_frames-append captured (frame ∷ []))

  -- A frame was stored: the packet is from the pool.
  abbrev after_capture : Flow A → Queue (TlayerPacket A) → TlayerPacket A → Flow A
  after_capture f rest frame = record f {
    tlayer_packet_queue = rest;
    pcap_packet_queue = push frame f.pcap_packet_queue;
    frames_captured = f.frames_captured ++ frame ∷ [];
  }

  store_cases :
      (caplen : ℕ) (bytes : ℕ → ℕ) (r : Popped (TlayerPacket A)) (f g : Flow A)
      → store caplen bytes r f ≡ stored g
      → (p : TlayerPacket A) × (rest : Queue (TlayerPacket A)) × (r ≡ popped p rest)
        × (g ≡ after_capture f rest (fill caplen bytes p))
  store_cases caplen bytes waits f g h = cc
  store_cases caplen bytes deactivated f g h = cc
  store_cases caplen bytes (popped p rest) f g h = (p, rest, refl, cc)

  callback-Conserves :
      (n caplen : ℕ) (bytes : ℕ → ℕ) (f g : Flow A)
      → caplen < 2 ^ 32
      → callback caplen bytes f ≡ stored g
      → Conserves n f
      → Conserves n g
  unfolding callback fill push
  callback-Conserves n caplen bytes f g l h c =
      let (p, rest, e, made) =
        store_cases caplen bytes (wait_and_pop f.tlayer_packet_queue) f g h in
      let (items, active) = popped-items f.tlayer_packet_queue p rest e in
      let fewer : length f.tlayer_packet_queue.items ≡ suc (length rest.items) = ap length items in
      let frame = fill caplen bytes p in
      subst (Conserves n) (sym made) (record {
        number = omega (arith, length-push frame f.pcap_packet_queue, c.number, fewer);
        pool_active = active ∙ c.pool_active;
        lengths =
            All-append (λ q. q.caplen < 2 ^ 32) f.pcap_packet_queue.items (frame ∷ []) c.lengths
              (l, tt);
        order =
            captured-order f.frames_taken f.udp_packet_queue.items f.pcap_packet_queue.items
              f.frames_captured frame c.order;
      })

  step-Conserves : (n : ℕ) (f g : Flow A) → Step address_of f g → Conserves n f → Conserves n g
  unfolding recycle push deactivate
  step-Conserves n f g (capture caplen bytes _ _ l h) c =
      callback-Conserves n caplen bytes f g l h c
  step-Conserves n f g (sort _) c = dispatch_round-Conserves n f c
  step-Conserves n f g (take _ p rest e) c =
      let (items, active) = popped-items f.udp_packet_queue p rest e in
      let fewer : length f.udp_packet_queue.items ≡ suc (length rest.items) = ap length items in
      record {
        number = omega (arith, c.number, fewer);
        pool_active = c.pool_active;
        lengths = c.lengths;
        order =
            append_assoc f.frames_taken (p ∷ []) _
            ∙ ap (λ xs. f.frames_taken ++ (xs ++ udp_frames address_of f.pcap_packet_queue.items))
                (sym items)
            ∙ c.order;
      }
  step-Conserves n f g (give_back _ p k e) c = record {
    number = omega (arith, length-push p f.tlayer_packet_queue, c.number, e);
    pool_active = c.pool_active;
    lengths = c.lengths;
    order = c.order;
  }
  step-Conserves n f g (end_sorting _) c = release-Conserves n f c
  step-Conserves n f g (stop_sorting _) c = record {
    number = c.number;
    pool_active = c.pool_active;
    lengths = c.lengths;
    order = c.order;
  }
  step-Conserves n f g (stop_taking _) c = record {
    number = c.number;
    pool_active = c.pool_active;
    lengths = c.lengths;
    order = c.order;
  }

  steps-Conserves : (n : ℕ) (f g : Flow A) → Steps address_of f g → Conserves n f → Conserves n g
  steps-Conserves n f g (stop _) c = c
  steps-Conserves n f h (then_step _ g _ before step) c =
      step-Conserves n g h step (steps-Conserves n f g before c)

fill_pool-length :
    {P : Type 0} (n : ℕ) (make : P) (q : Queue P)
    → q.activated ≡ true
    → (length (fill_pool (pos n) make q).items ≡ length q.items + n)
      × ((fill_pool (pos n) make q).activated ≡ true)
unfolding fill_pool push
fill_pool-length zero make q a = (omega arith, a)
fill_pool-length (suc n) make q a =
    let (e, b) = fill_pool-length n make (push make q) a in
    (omega (arith, e, length-push make q), b)

-- Whatever the capture, the dispatcher, the UDP handler and the deleters of the packets do, in any order,
-- from a pool filled with `n` packets: these are all there, in the queues or with the threads behind, the
-- pool is active, and the UDP handler has got, or will get out of the queues, exactly the UDP frames of
-- all that was captured, parsed and in the order of their capture.
pub steps-Conserves_filled :
    {A : Type 0} (address_of : (ℕ → ℕ) → A) (n : ℕ) (make : TlayerPacket A) (f : Flow A)
    → Steps address_of (filled_pool (fill_pool (pos n) make empty)) f
    → Conserves address_of n f
unfolding empty
steps-Conserves_filled address_of n make f s =
    let (size, active) = fill_pool-length n make empty refl in
    steps-Conserves address_of n (filled_pool (fill_pool (pos n) make empty)) f s
      (record { number = omega (arith, size); pool_active = active; lengths = tt; order = refl })
