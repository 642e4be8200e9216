-- ===== src/Output/Socket.antt =====
-- `OutputHandler::pushToSocket` of src/output/OutputHandler.cpp, on a little-endian machine. The peer of
-- the TCP socket, which the Boost library drives, is a parameter: its answer to each call, by the number
-- of the call. What is not modelled: the pauses, and that `close` fails.
use callx.Audio.MemChunk.{MemChunk, PcmAudio}
use callx.Output.Wave.{le16, le32, memory_of}
use callx.Prelude.{
  ℕ, zero, suc, ◌+◌, ◌-◌, ◌*◌, ◌/◌, ◌%◌, ◌^◌, ℤ, pos, negsuc, Bool, true, false, ◌||◌, List, [],
  ◌∷◌, ◌++◌, Option, none, some, Bytes, take, leb, ◌==◌, if◌then◌else◌,
}

-- `connect` succeeds or throws; `write_some` takes a number of octets or reports an error.
pub record Peer : Type 0 where
  pub connects : ℕ → Bool
  pub accepts : ℕ → Bytes → Option ℕ

-- The socket, with the calls so far and what the peer got over each connection, the newest first.
pub record TcpSocket : Type 0 where
  pub is_open : Bool
  pub connect_calls : ℕ
  pub write_calls : ℕ
  pub connections : List Bytes

-- `m_tcpSocket->close()`
unfoldable pub close_socket : TcpSocket → TcpSocket
close_socket s = record s { is_open = false }

abbrev pub append_newest : Bytes → List Bytes → List Bytes
append_newest octets [] = octets ∷ []
append_newest octets (c ∷ rest) = (c ++ octets) ∷ rest

-- `m_startSep`, `m_endSep`: four values of 16 bits.
abbrev pub start_sep : Bytes
start_sep = le16 1 ++ le16 10 ++ le16 100 ++ le16 1000

abbrev pub end_sep : Bytes
end_sep = le16 1000 ++ le16 100 ++ le16 10 ++ le16 1

-- The memory of an `u_long` that a `long` was assigned to.
abbrev long_mod : ℤ → ℕ
long_mod (pos n) = n % 2 ^ 64
long_mod (negsuc n) = 2 ^ 64 - 1 - n % 2 ^ 64

abbrev pub long_bytes : ℤ → Bytes
long_bytes n = le32 (long_mod n % 2 ^ 32) ++ le32 (long_mod n / 2 ^ 32)

-- `int` to `u_int`: 32 bits that wrap, also in the products, where `int` could overflow.
abbrev u_int_mod : ℕ
u_int_mod = 2 ^ 32

abbrev int_mod : ℤ → ℕ
int_mod (pos n) = n % u_int_mod
int_mod (negsuc n) = u_int_mod - 1 - n % u_int_mod

abbrev pub sub_u_int : ℕ → ℕ → ℕ
sub_u_int a b = (a + u_int_mod - b) % u_int_mod

unfoldable pub max_bytes : ℤ → ℕ
max_bytes send_seconds = int_mod send_seconds * 8000 * 2 % u_int_mod

-- The data of a chunk.
abbrev pub chunk_data : MemChunk → Bytes
chunk_data c = take c.filling_level (memory_of c.data_written)

-- The octets to send of a chunk, and whether it is the last one.
abbrev pub bytes_to_send : ℕ → ℕ → MemChunk → ℕ × Bool
bytes_to_send max sent c =
    if leb c.filling_level (sub_u_int max sent)
    then (c.filling_level, false)
    else (sub_u_int max sent, true)

-- After a write, and after an operation that says whether it succeeded.
abbrev pub if_sent : TcpSocket × Option ℕ → (TcpSocket → TcpSocket × Bool) → TcpSocket × Bool
if_sent (s, none) next = (s, false)
if_sent (s, some n) next = next s

abbrev pub if_done {ℓ} : {R : Type ℓ} → TcpSocket × Bool → (TcpSocket → R) → (TcpSocket → R) → R
if_done (s, true) next other = next s
if_done (s, false) next other = other s

-- The rest of the loop's body, with what the write returned; the loop goes on by `next`.
unfoldable pub after_chunk :
    ℕ → ℕ → Bool → TcpSocket × Option ℕ → (ℕ → TcpSocket → TcpSocket) → TcpSocket
after_chunk max sent last (s, none) next = s
after_chunk max sent last (s, some n) next =
    let all_sent = (sent + n) % u_int_mod in
    if last || (sub_u_int max all_sent == 0) then s else next all_sent s

module _ (peer : Peer) where
  -- `connect` where the socket is closed; where it throws the socket is closed again.
  unfoldable pub ensure_open : TcpSocket → TcpSocket × Bool
  ensure_open s =
      if s.is_open
      then (s, true)
      else if peer.connects s.connect_calls
      then (
        record s {
          is_open = true;
          connect_calls = s.connect_calls + 1;
          connections = [] ∷ s.connections;
        },
        true,
      )
      else (record s { connect_calls = s.connect_calls + 1 }, false)

  abbrev pub taken : Bytes → Option ℕ → TcpSocket → TcpSocket × Option ℕ
  taken octets none s = (close_socket s, none)
  taken octets (some n) s =
      (record s { connections = append_newest (take n octets) s.connections }, some n)

  -- `write_some`, which fails on a closed socket; the code closes the socket after each error.
  unfoldable pub send : Bytes → TcpSocket → TcpSocket × Option ℕ
  send octets s =
      if s.is_open
      then taken octets (peer.accepts s.write_calls octets)
          (record s { write_calls = s.write_calls + 1 })
      else (s, none)

  -- The loop over the chunks.
  unfoldable pub send_chunks : ℕ → List MemChunk → ℕ → TcpSocket → TcpSocket
  send_chunks max [] sent s = s
  send_chunks max (c ∷ rest) sent s =
      let (count, last) = bytes_to_send max sent c in
      after_chunk max sent last (send (take count (chunk_data c)) s) (send_chunks max rest)

  -- The PCM data and the end separator, which is tried after an error as well.
  unfoldable pub send_audio : ℕ → PcmAudio → TcpSocket → TcpSocket
  send_audio max p s = (send end_sep (send_chunks max p.mem_chunk_deque 0 s)).0

  -- The start separator, then the call's number; whether both writes succeeded.
  unfoldable pub send_call_id : ℤ → TcpSocket → TcpSocket × Bool
  send_call_id id s = if_sent (send (long_bytes id) s) λ t. (t, true)

  unfoldable pub send_start : ℤ → TcpSocket → TcpSocket × Bool
  send_start id s = if_sent (send start_sep s) (send_call_id id)

  unfoldable pub begin : ℤ → TcpSocket → TcpSocket × Bool
  begin id s = if_done (ensure_open s) (send_start id) λ t. (t, false)

  -- The code from the label `connect` on, for the tries that `connectCount` leaves: 3 at first.
  unfoldable pub try_connect : ℕ → ℕ → ℤ → PcmAudio → TcpSocket → TcpSocket
  try_connect zero max id p s = s
  try_connect (suc tries) max id p s =
      if_done (begin id s) (send_audio max p) (try_connect tries max id p)

  unfoldable pub push_to_socket : ℤ → ℤ → PcmAudio → TcpSocket → TcpSocket
  push_to_socket send_seconds id p s = try_connect 3 (max_bytes send_seconds) id p s
