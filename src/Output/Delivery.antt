-- ===== src/Output/Delivery.antt =====
-- What the peer of `OutputHandler::pushToSocket` of src/output/OutputHandler.cpp gets.
use callx.Audio.MemChunk.{MemChunk, PcmAudio}
use callx.Audio.Recording.{Filled}
use callx.Audio.Samples.{recorded}
use callx.Output.Reader.{length-memory_of, memory_of-append, take-length}
use callx.Output.Socket.{
  Peer, TcpSocket, append_newest, start_sep, end_sep, long_bytes, max_bytes, sub_u_int, chunk_data,
  ensure_open, send, after_chunk, send_chunks, send_audio, send_call_id, send_start, begin,
  try_connect, push_to_socket,
}
use callx.Output.Wave.{memory_of}
use callx.Prelude.{
  ℕ, zero, suc, ◌+◌, ◌-◌, ◌%◌, ◌^◌, ◌≤◌, ◌<◌, ◌≡◌, refl, sym, ap, ◌∙◌, inl, inr, ℤ, true, false,
  List, [], ◌∷◌, ◌++◌, some, arith, Bytes, take, length, leb, Bool-cases, ◌==◌, if◌then◌else◌,
}
use mathlib.Core.List.{append-nil, append_assoc}

-- Connecting succeeds, and `write_some` takes all octets that it is given.
pub record IsReliable (peer : Peer) : Type 0 where
  pub connects : (i : ℕ) → peer.connects i ≡ true
  pub accepts : (i : ℕ) (octets : Bytes) → peer.accepts i octets ≡ some (length octets)

take_more : (s t : Bytes) (n : ℕ) → length s ≤ n → take n (s ++ t) ≡ s ++ take (n - length s) t
take_more [] t n h = let e : n - 0 ≡ n = omega arith in rw e refl
take_more (x ∷ s) t zero h = absurd (omega (arith, h))
take_more (x ∷ s) t (suc n) h =
    let e : suc n - suc (length s) ≡ n - length s = omega arith in
    rw e (ap (λ u. x ∷ u) (take_more s t n (omega (arith, h))))

take_fewer : (s t : Bytes) (n : ℕ) → n ≤ length s → take n (s ++ t) ≡ take n s
take_fewer s t zero h = refl
take_fewer [] t (suc n) h = absurd (omega (arith, h))
take_fewer (x ∷ s) t (suc n) h = ap (λ u. x ∷ u) (take_fewer s t n (omega (arith, h)))

-- An open socket whose newest connection has got these octets.
pub record Got (got : Bytes) (older : List Bytes) (s : TcpSocket) : Type 0 where
  pub open_now : s.is_open ≡ true
  pub newest : s.connections ≡ got ∷ older

take_nothing : (n : ℕ) → take {A = ℕ} n [] ≡ []
take_nothing zero = refl
take_nothing (suc n) = refl

-- The rest of the loop's body after a chunk that fits.
after_whole :
    (got memory later : Bytes) (older : List Bytes) (max sent : ℕ) (t : TcpSocket)
    (next : ℕ → TcpSocket → TcpSocket)
    → length memory ≤ max - sent
    → sent ≤ max
    → max < 2 ^ 32
    → Got (got ++ memory) older t
    → Got
        ((got ++ memory) ++ take (max - (sent + length memory)) later)
        older
        (next ((sent + length memory) % 2 ^ 32) t)
    → Got
        (got ++ take (max - sent) (memory ++ later))
        older
        (after_chunk max sent false (t, some (length memory)) next)
unfolding after_chunk
after_whole got memory later older max sent t next small h l g k =
    let total = (sent + length memory) % 2 ^ 32 in
    let e : max - sent - length memory ≡ max - (sent + length memory) = omega arith in
    let all : got ++ take (max - sent) (memory ++ later)
        ≡ (got ++ memory) ++ take (max - (sent + length memory)) later =
      ap (λ u. got ++ u) (take_more memory later (max - sent) small)
      ∙ sym (append_assoc got memory _)
      ∙ ap (λ m. (got ++ memory) ++ take m later) e in
    elim (Bool-cases (sub_u_int max total == 0)) [
      | inl f ↦
          let done : max - (sent + length memory) ≡ 0 = ground (arith, small, h, l, f) in
          rw (f, all, done) (rw (append-nil (got ++ memory)) g)
      | inr f ↦ rw (f, all) k
    ]

-- The connections once the socket is open.
abbrev pub on_open : TcpSocket → List Bytes
on_open s = if s.is_open then s.connections else [] ∷ s.connections

-- What a recording with these octets is sent as.
abbrev pub message : ℕ → ℤ → Bytes → Bytes
message max id audio = start_sep ++ long_bytes id ++ take max audio ++ end_sep

append_message : (a b c d e : Bytes) → a ++ (b ++ c ++ d ++ e) ≡ a ++ b ++ c ++ d ++ e
append_message a b c d e =
    sym (append_assoc a (b ++ c ++ d) e)
    ∙ ap (λ u. u ++ e)
        (sym (append_assoc a (b ++ c) d) ∙ ap (λ u. u ++ d) (sym (append_assoc a b c)))

module _ (peer : Peer) (reliable : IsReliable peer) where
  send-Got :
      {got : Bytes} {older : List Bytes} (octets : Bytes) (s : TcpSocket)
      → Got got older s
      → (t : TcpSocket) × (send peer octets s ≡ (t, some (length octets)))
        × Got (got ++ octets) older t
  unfolding send
  send-Got octets s g =
      let t : TcpSocket = record s {
        write_calls = s.write_calls + 1;
        connections = append_newest octets s.connections;
      } in
      (
        t,
        rw
            (
              g.open_now,
              reliable.accepts s.write_calls octets,
              take-length octets (length octets) refl,
            )
            refl,
        record { open_now = g.open_now; newest = ap (append_newest octets) g.newest },
      )

  send_chunks-Got :
      (n max : ℕ) (cs : List MemChunk) (sent : ℕ) (got : Bytes) (older : List Bytes) (s : TcpSocket)
      → Filled n cs
      → sent ≤ max
      → max < 2 ^ 32
      → Got got older s
      → Got
          (got ++ take (max - sent) (memory_of (recorded cs)))
          older
          (send_chunks peer max cs sent s)
  unfolding send_chunks after_chunk
  send_chunks-Got n max [] sent got older s f h l g =
      rw (take_nothing (max - sent), append-nil got) g
  send_chunks-Got n max (c ∷ rest) sent got older s f h l g =
      let memory = memory_of c.data_written in
      let later = memory_of (recorded rest) in
      let long : c.filling_level ≡ length memory =
        omega (arith, f.0.0.level, length-memory_of c.data_written) in
      let whole : chunk_data c ≡ memory = take-length memory c.filling_level long in
      let room : sub_u_int max sent ≡ max - sent = omega (arith, h, l) in
      rw (memory_of-append c.data_written (recorded rest))
        (elim (Bool-cases (leb c.filling_level (sub_u_int max sent))) [
          | inl e ↦
              let small : length memory ≤ max - sent = ground (arith, long, room, e) in
              let (t, run, g1) = send-Got memory s g in
              let total : (sent + length memory) % 2 ^ 32 ≡ sent + length memory =
                omega (arith, small, h, l) in
              let next =
                send_chunks-Got n max rest (sent + length memory) (got ++ memory) older t f.1
                  (omega (arith, small, h)) l g1 in
              rw (e, whole, whole, run)
                (after_whole got memory later older max sent t (send_chunks peer max rest) small h l
                  g1 (rw total next))
          | inr e ↦
              let large : max - sent ≤ length memory = ground (arith, long, room, e) in
              let (t, run, g1) = send-Got (take (max - sent) memory) s g in
              rw (e, room, whole, run) (rw (take_fewer memory later (max - sent) large) g1)
        ])

  send_audio-Got :
      (n max : ℕ) (p : PcmAudio) (got : Bytes) (older : List Bytes) (s : TcpSocket)
      → Filled n p.mem_chunk_deque
      → max < 2 ^ 32
      → Got got older s
      → Got
          ((got ++ take max (memory_of (recorded p.mem_chunk_deque))) ++ end_sep)
          older
          (send_audio peer max p s)
  unfolding send_audio
  send_audio-Got n max p got older s f l g =
      let e : max - 0 ≡ max = omega arith in
      let chunks = send_chunks-Got n max p.mem_chunk_deque 0 got older s f (omega arith) l g in
      let (t, run, g1) =
        send-Got end_sep (send_chunks peer max p.mem_chunk_deque 0 s) (rw e at chunks) in
      rw (send_audio, run) g1

  ensure_open-Got :
      (got : Bytes) (older : List Bytes) (s : TcpSocket)
      → on_open s ≡ got ∷ older
      → (t : TcpSocket) × (ensure_open peer s ≡ (t, true)) × Got got older t
  unfolding ensure_open
  ensure_open-Got got older s h = elim (Bool-cases s.is_open) [
    | inl e ↦ (s, simp (e, ensure_open), record { open_now = e; newest = rw e at h })
    | inr e ↦ (
      record s {
        is_open = true;
        connect_calls = s.connect_calls + 1;
        connections = [] ∷ s.connections;
      },
      simp (e, reliable.connects s.connect_calls, ensure_open),
      record { open_now = refl; newest = rw e at h },
    )
  ]

  send_start-Got :
      (id : ℤ) (got : Bytes) (older : List Bytes) (s : TcpSocket)
      → Got got older s
      → (t : TcpSocket) × (send_start peer id s ≡ (t, true))
        × Got ((got ++ start_sep) ++ long_bytes id) older t
  unfolding send_start send_call_id
  send_start-Got id got older s g =
      let (t, run, g1) = send-Got start_sep s g in
      let (u, run1, g2) = send-Got (long_bytes id) t g1 in (u, rw (run, run1) refl, g2)

  pub push_to_socket-Got :
      (n : ℕ) (send_seconds id : ℤ) (p : PcmAudio) (got : Bytes) (older : List Bytes)
      (s : TcpSocket)
      → Filled n p.mem_chunk_deque
      → on_open s ≡ got ∷ older
      → Got
          (got ++ message (max_bytes send_seconds) id (memory_of (recorded p.mem_chunk_deque)))
          older
          (push_to_socket peer send_seconds id p s)
  unfolding push_to_socket try_connect begin max_bytes
  push_to_socket-Got n send_seconds id p got older s f h =
      let max = max_bytes send_seconds in
      let (t, run, g) = ensure_open-Got got older s h in
      let (u, run1, g1) = send_start-Got id got older t g in
      let g2 =
        send_audio-Got n max p ((got ++ start_sep) ++ long_bytes id) older u f (omega arith) g1 in
      rw (run, run1)
        (rw
          (append_message got start_sep (long_bytes id)
            (take max (memory_of (recorded p.mem_chunk_deque))) end_sep)
          g2)
