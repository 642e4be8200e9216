-- ===== src/Output/Limits.antt =====
-- How much `OutputHandler::pushToSocket` of src/output/OutputHandler.cpp sends at most.
use callx.Audio.MemChunk.{MemChunk, PcmAudio}
use callx.Output.Socket.{
  Peer, TcpSocket, append_newest, start_sep, end_sep, long_bytes, max_bytes, sub_u_int, chunk_data,
  bytes_to_send, close_socket, ensure_open, taken, send, after_chunk, send_chunks, send_audio,
  if_sent, if_done, send_call_id, send_start, begin, try_connect, push_to_socket,
}
use callx.Prelude.{
  ℕ, zero, suc, ◌+◌, ◌-◌, ◌*◌, ◌%◌, ◌^◌, ◌≤◌, ◌<◌, ◌≡◌, refl, ap, ℤ, Bool, true, false, ◌||◌, List,
  [], ◌∷◌, Option, none, some, arith, Bytes, take, length, length-append, ◌==◌, if◌then◌else◌,
}

count_fits :
    (max sent : ℕ) (c : MemChunk)
    → sent ≤ max
    → max < 2 ^ 32
    → (bytes_to_send max sent c).0 ≤ max - sent
count_fits max sent c h l = ground arith

-- Boost's promise: `write_some` takes no more octets than it is given.
abbrev pub IsModest : Peer → Type 0
IsModest peer =
    (i : ℕ) (octets : Bytes) (n : ℕ) → peer.accepts i octets ≡ some n → n ≤ length octets

abbrev total_of : List Bytes → ℕ
total_of [] = 0
total_of (c ∷ rest) = length c + total_of rest

abbrev pub total : TcpSocket → ℕ
total s = total_of s.connections

abbrev count_of : Option ℕ → ℕ
count_of none = 0
count_of (some n) = n

either {ℓ κ} :
    {A : Type ℓ} (P : A → Type κ) (b : Bool) {x y : A} → P x → P y → P (if b then x else y)
either P true h k = h
either P false h k = k

length-take_le : (n : ℕ) (s : Bytes) → length (take n s) ≤ n
length-take_le zero s = omega arith
length-take_le (suc n) [] = omega arith
length-take_le (suc n) (x ∷ s) = omega (arith, length-take_le n s)

length-take_small : (n : ℕ) (s : Bytes) → n ≤ length s → length (take n s) ≡ n
length-take_small zero s h = refl
length-take_small (suc n) [] h = absurd (omega (arith, h))
length-take_small (suc n) (x ∷ s) h = ap suc (length-take_small n s (omega (arith, h)))

total_of-append_newest :
    (octets : Bytes) (cs : List Bytes)
    → total_of (append_newest octets cs) ≡ total_of cs + length octets
total_of-append_newest octets [] = omega arith
total_of-append_newest octets (c ∷ cs) = omega (arith, length-append c octets)

-- What a write adds is what it reports, and it makes no connection.
record Adds (limit : ℕ) (s : TcpSocket) (r : TcpSocket × Option ℕ) : Type 0 where
  pub added : total r.0 ≡ total s + count_of r.1
  pub limited : count_of r.1 ≤ limit
  pub calls : r.0.connect_calls ≡ s.connect_calls

-- An operation that adds at most so many octets and connections.
record Within (octets calls : ℕ) (s t : TcpSocket) : Type 0 where
  pub octets_within : total t ≤ total s + octets
  pub calls_within : t.connect_calls ≤ s.connect_calls + calls

stays : (s : TcpSocket) → Within 0 0 s s
stays s = record { octets_within = omega arith; calls_within = omega arith }

then_Within :
    {a b c d e f : ℕ} {s t u : TcpSocket}
    → Within a b s t
    → Within c d t u
    → a + c ≤ e
    → b + d ≤ f
    → Within e f s u
then_Within v w h k = record {
  octets_within = omega (arith, v.octets_within, w.octets_within, h);
  calls_within = omega (arith, v.calls_within, w.calls_within, k);
}

if_sent-Within :
    {a c : ℕ} {s : TcpSocket} (b : ℕ) (r : TcpSocket × Option ℕ)
    (next : TcpSocket → TcpSocket × Bool)
    → Within a c s r.0
    → ((t : TcpSocket) → Within b 0 t (next t).0)
    → Within (a + b) c s (if_sent r next).0
if_sent-Within b (t, none) next w h = then_Within w (stays t) (omega arith) (omega arith)
if_sent-Within b (t, some n) next w h = then_Within w (h t) (omega arith) (omega arith)

if_done-Within {ℓ} :
    {R : Type ℓ} {a c : ℕ} {s : TcpSocket} (b d : ℕ) (socket : R → TcpSocket) (r : TcpSocket × Bool)
    (next other : TcpSocket → R)
    → Within a c s r.0
    → ((t : TcpSocket) → Within b d t (socket (next t)))
    → ((t : TcpSocket) → Within b d t (socket (other t)))
    → Within (a + b) (c + d) s (socket (if_done r next other))
if_done-Within b d socket (t, true) next other w h k =
    then_Within w (h t) (omega arith) (omega arith)
if_done-Within b d socket (t, false) next other w h k =
    then_Within w (k t) (omega arith) (omega arith)

after_chunk-Within :
    (max sent limit left : ℕ) (last : Bool) (s : TcpSocket) (r : TcpSocket × Option ℕ)
    (next : ℕ → TcpSocket → TcpSocket)
    → Adds limit s r
    → limit ≤ left
    → ((n : ℕ) → n ≤ limit → (t : TcpSocket) → Within (left - n) 0 t (next ((sent + n) % 2 ^ 32) t))
    → Within left 0 s (after_chunk max sent last r next)
unfolding after_chunk
after_chunk-Within max sent limit left last s (t, none) next a l h = record {
  octets_within = omega (arith, a.added);
  calls_within = omega (arith, a.calls);
}
after_chunk-Within max sent limit left last s (t, some n) next a l h =
    let first : Within n 0 s t = record {
      octets_within = omega (arith, a.added);
      calls_within = omega (arith, a.calls);
    } in
    either (Within left 0 s) (last || (sub_u_int max ((sent + n) % 2 ^ 32) == 0))
      (then_Within first (stays t) (omega (arith, a.limited, l)) (omega arith))
      (then_Within first (h n a.limited t) (omega (arith, a.limited, l)) (omega arith))

module _ (peer : Peer) (modest : IsModest peer) where
  taken-Adds :
      (octets : Bytes) (s : TcpSocket) (result : Option ℕ)
      → ((n : ℕ) → result ≡ some n → n ≤ length octets)
      → Adds (length octets) s (taken peer octets result s)
  unfolding close_socket
  taken-Adds octets s none h = record { added = omega arith; limited = omega arith; calls = refl }
  taken-Adds octets s (some n) h = record {
    added = omega (
      arith,
      total_of-append_newest (take n octets) s.connections,
      length-take_small n octets (h n refl),
    );
    limited = h n refl;
    calls = refl;
  }

  send-Adds : (octets : Bytes) (s : TcpSocket) → Adds (length octets) s (send peer octets s)
  unfolding send
  send-Adds octets s =
      let t = record s { write_calls = s.write_calls + 1 } in
      let a =
        taken-Adds octets t (peer.accepts s.write_calls octets) (modest s.write_calls octets) in
      either (Adds (length octets) s) s.is_open
        (record { added = a.added; limited = a.limited; calls = a.calls })
        (record { added = omega arith; limited = omega arith; calls = refl })

  send-Within :
      (n : ℕ) (octets : Bytes) (s : TcpSocket)
      → length octets ≤ n
      → Within n 0 s (send peer octets s).0
  send-Within n octets s h =
      let a = send-Adds octets s in
      record {
        octets_within = omega (arith, a.added, a.limited, h);
        calls_within = omega (arith, a.calls);
      }

  send_chunks-Within :
      (max : ℕ) (cs : List MemChunk) (sent : ℕ) (s : TcpSocket)
      → sent ≤ max
      → max < 2 ^ 32
      → Within (max - sent) 0 s (send_chunks peer max cs sent s)
  unfolding send_chunks
  send_chunks-Within max [] sent s h l = then_Within (stays s) (stays s) (omega arith) (omega arith)
  send_chunks-Within max (c ∷ rest) sent s h l =
      let (count, last) = bytes_to_send max sent c in
      let few : length (take count (chunk_data c)) ≤ max - sent =
        omega (arith, length-take_le count (chunk_data c), count_fits max sent c h l) in
      after_chunk-Within max sent _ (max - sent) last s _ _ (send-Adds _ s) few (λ n m t.
        let e : (sent + n) % 2 ^ 32 ≡ sent + n = omega (arith, m, few, h, l) in
        rw e (
          then_Within (send_chunks-Within max rest (sent + n) t (omega (arith, m, few, h)) l)
            (stays _) (omega arith) (omega arith)))

  send_audio-Within :
      (max : ℕ) (p : PcmAudio) (s : TcpSocket)
      → max < 2 ^ 32
      → Within (max + 8) 0 s (send_audio peer max p s)
  unfolding send_audio
  send_audio-Within max p s l =
      then_Within (send_chunks-Within max p.mem_chunk_deque 0 s (omega arith) l)
        (send-Within 8 end_sep (send_chunks peer max p.mem_chunk_deque 0 s) (omega arith))
        (omega arith) (omega arith)

  ensure_open-Within : (s : TcpSocket) → Within 0 1 s (ensure_open peer s).0
  unfolding ensure_open
  ensure_open-Within s =
      either (λ (r : TcpSocket × Bool). Within 0 1 s r.0) s.is_open
        (record { octets_within = omega arith; calls_within = omega arith })
        (either (λ (r : TcpSocket × Bool). Within 0 1 s r.0) (peer.connects s.connect_calls)
          (record { octets_within = omega arith; calls_within = omega arith })
          (record { octets_within = omega arith; calls_within = omega arith }))

  send_start-Within : (id : ℤ) (s : TcpSocket) → Within 16 0 s (send_start peer id s).0
  unfolding send_start send_call_id
  send_start-Within id s =
      if_sent-Within 8 (send peer start_sep s) (send_call_id peer id)
        (send-Within 8 start_sep s (omega arith))
        λ t.
          if_sent-Within 0 (send peer (long_bytes id) t) (λ u. (u, true))
            (send-Within 8 (long_bytes id) t (omega arith)) stays

  begin-Within : (id : ℤ) (s : TcpSocket) → Within 16 1 s (begin peer id s).0
  unfolding begin
  begin-Within id s =
      if_done-Within 16 0 (λ (r : TcpSocket × Bool). r.0) (ensure_open peer s) (send_start peer id)
        (λ t. (t, false)) (ensure_open-Within s) (send_start-Within id)
        (λ t. then_Within (stays t) (stays t) (omega arith) (omega arith))

  try_connect-Within :
      (tries max : ℕ) (id : ℤ) (p : PcmAudio) (s : TcpSocket)
      → max < 2 ^ 32
      → Within (max + 8 + 16 * tries) tries s (try_connect peer tries max id p s)
  unfolding try_connect
  try_connect-Within zero max id p s l = then_Within (stays s) (stays s) (omega arith) (omega arith)
  try_connect-Within (suc tries) max id p s l =
      then_Within
        (if_done-Within (max + 8 + 16 * tries) tries (λ t. t) (begin peer id s)
          (send_audio peer max p) (try_connect peer tries max id p) (begin-Within id s)
          (λ t. then_Within (send_audio-Within max p t l) (stays _) (omega arith) (omega arith))
          (λ t. try_connect-Within tries max id p t l))
        (stays _) (omega arith) (omega arith)

  -- With a peer that takes no more octets than it is given, a recording is sent with three tries to
  -- connect at most, and over all connections it adds at most the octets of the configured seconds and
  -- those of three call numbers and four separators.
  pub push_to_socket-Within :
      (send_seconds id : ℤ) (p : PcmAudio) (s : TcpSocket)
      → (total (push_to_socket peer send_seconds id p s) ≤ total s + (max_bytes send_seconds + 56))
        × ((push_to_socket peer send_seconds id p s).connect_calls ≤ s.connect_calls + 3)
  unfolding push_to_socket max_bytes
  push_to_socket-Within send_seconds id p s =
      let w = try_connect-Within 3 (max_bytes send_seconds) id p s (omega arith) in
      (omega (arith, w.octets_within), w.calls_within)
