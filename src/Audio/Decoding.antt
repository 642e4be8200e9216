-- ===== src/Audio/Decoding.antt =====
-- `AudioHandler::decodeRtpPacketDeque` of src/audio/AudioHandler.cpp.
use callx.Audio.G711.{decode, in_buf_size, out_buf_size}
use callx.Audio.MemChunk.{MemChunk, new_chunk, declare, PcmAudio, add_chunk}
use callx.Container.Queue.{Queue, push}
use callx.Network.Frame.{sub_size}
use callx.Network.Payload.{Payload}
use callx.Prelude.{
  ℤ, ℕ, ◌+◌, ◌*◌, ◌%◌, Bool, not, ◌&&◌, ◌||◌, List, [], ◌∷◌, ◌++◌, Option, none, some,
  if◌then◌else◌, ltb, ◌==◌, length,
}

-- `rtpPayloadTypeEnum`
abbrev pub pt_pcmu : ℕ
pt_pcmu = 0

abbrev pub pt_gsm : ℕ
pt_gsm = 3

abbrev pub pt_pcma : ℕ
pt_pcma = 8

-- The type without the marker bit, the sequence number and the size after the 12 octets of the header.
unfoldable pub rtp_payload_type : Payload → ℕ
rtp_payload_type p = p.byte 1 % 128

unfoldable pub rtp_seq_num : Payload → ℕ
rtp_seq_num p = p.byte 2 * 256 + p.byte 3

unfoldable pub rtp_payload_size : Payload → ℕ
rtp_payload_size p = sub_size p.size 12

-- The variables of the loop, the packets that have gone back to the pool, and the static counter.
pub record Decoder : Type 0 where
  pub mem_chunk : MemChunk
  pub pcm_audio : PcmAudio
  pub seq_num : ℕ
  pub seq_num_prev : ℕ
  pub seq_num_error : ℕ
  pub recycled : List Payload

-- The result of a function that may call `exit` or follow a null pointer.
pub data Run (S : Type 0) : Type 0 where
  running : S → Run S
  exited : Run S
  crashed : Run S

infixl 5 ◌>>=◌
abbrev pub ◌>>=◌ : {S T : Type 0} → Run S → (S → Run T) → Run T
running s >>= f = f s
exited >>= f = exited
crashed >>= f = crashed

unfoldable pub count_seq_num_error : Decoder → Decoder
count_seq_num_error d =
    if not (d.seq_num_prev == 0) && not (d.seq_num == d.seq_num_prev + 1)
    then record d { seq_num_error = d.seq_num_error + 1 }
    else d

abbrev exit_if_none : Option MemChunk → Decoder → Run Decoder
exit_if_none none d = exited
exit_if_none (some c) d = running (record d { mem_chunk = c })

-- A place for the decoder's output: in the chunk, else in a new one; a second failure exits.
unfoldable pub store : ℕ → List ℤ → Decoder → Run Decoder
store mem_chunk_size samples d = elim (declare out_buf_size samples d.mem_chunk) [
  | some c ↦ running (record d { mem_chunk = c })
  | none ↦
      exit_if_none (declare out_buf_size samples (new_chunk mem_chunk_size))
        (record d { pcm_audio = add_chunk d.mem_chunk d.pcm_audio })
]

-- The types for which there is a decoder.
unfoldable pub is_supported : ℕ → Bool
is_supported t = t == pt_pcmu || t == pt_pcma

-- The body of the loop. A packet that is skipped goes back to the pool when the next one takes its
-- place, one that is decoded at the end of the body.
unfoldable pub decode_packet : ℕ → Payload → Decoder → Run Decoder
decode_packet mem_chunk_size p d =
    let recycle : Decoder → Decoder = λ x. record x { recycled = x.recycled ++ p ∷ [] } in
    let t = rtp_payload_type p in
    if t == pt_gsm
    then running (recycle d)
    else (let x = count_seq_num_error (record d { seq_num = rtp_seq_num p }) in
        if not (is_supported t) || ltb (rtp_payload_size p) in_buf_size
        then running (recycle x)
        else store mem_chunk_size (decode (t == pt_pcma) p.byte 12) x >>= λ y. running (recycle y))

unfoldable pub decode_packets : ℕ → List Payload → Decoder → Run Decoder
decode_packets mem_chunk_size [] d = running d
decode_packets mem_chunk_size (p ∷ rest) d =
    decode_packet mem_chunk_size p d >>= decode_packets mem_chunk_size rest

-- The last chunk, if it is not empty.
unfoldable pub finish : Decoder → PcmAudio
finish d =
    if ltb 0 d.mem_chunk.filling_level then add_chunk d.mem_chunk d.pcm_audio else d.pcm_audio

abbrev pub start : ℕ → PcmAudio → ℕ → Decoder
start mem_chunk_size audio seq_num_error = record {
  mem_chunk = new_chunk mem_chunk_size;
  pcm_audio = audio;
  seq_num = 0;
  seq_num_prev = 0;
  seq_num_error = seq_num_error;
  recycled = [];
}

-- The whole function: the `PcmAudioQueue`, the packets for the pool and the error counter.
unfoldable pub decode_deque :
    ℕ → PcmAudio → List Payload → ℕ → Queue PcmAudio → Run (Queue PcmAudio × List Payload × ℕ)
decode_deque mem_chunk_size audio packets errors q =
    decode_packets mem_chunk_size packets (start mem_chunk_size audio errors) >>= λ d.
    let pcm_audio = finish d in
    running (
      if ltb 0 (length pcm_audio.mem_chunk_deque) then push pcm_audio q else q,
      d.recycled,
      d.seq_num_error,
    )
