-- ===== src/Audio/Samples.antt =====
-- The samples that RTP packets stand for and those that the chunks of src/audio/MemChunk.hpp hold.
use callx.Audio.Decoding.{Decoder, is_supported, rtp_payload_type, rtp_payload_size, pt_pcma}
use callx.Audio.G711.{decode, decode_from}
use callx.Audio.MemChunk.{MemChunk, PcmAudio}
use callx.Network.Payload.{Payload}
use callx.Prelude.{
  ℤ, ℕ, zero, suc, ◌+◌, ◌*◌, ◌≤◌, ◌<◌, ◌≡◌, refl, sym, ap, ◌∙◌, Bool, true, false, not, ◌&&◌, List,
  [], ◌∷◌, ◌++◌, arith, if◌then◌else◌, ltb, ◌==◌, length, All,
}
use mathlib.Core.List.{append-nil, append_assoc}

-- The samples that a packet of a supported type and with enough octets stands for, and none else.
abbrev pub samples : Payload → List ℤ
samples p =
    if is_supported (rtp_payload_type p) && not (ltb (rtp_payload_size p) 160)
    then decode (rtp_payload_type p == pt_pcma) p.byte 12
    else []

abbrev pub all_samples : List Payload → List ℤ
all_samples [] = []
all_samples (p ∷ rest) = samples p ++ all_samples rest

abbrev pub recorded : List MemChunk → List ℤ
recorded [] = []
recorded (c ∷ rest) = c.data_written ++ recorded rest

abbrev pub content : Decoder → List ℤ
content d = recorded d.pcm_audio.mem_chunk_deque ++ d.mem_chunk.data_written

abbrev pub with_chunks : List MemChunk → PcmAudio → PcmAudio
with_chunks cs a = record a { mem_chunk_deque = cs }

-- A chunk of `n` bytes whose level is the size of its samples and within its size.
pub record IsChunk (n : ℕ) (c : MemChunk) : Type 0 where
  pub size : c.size ≡ n
  pub level : c.filling_level ≡ 2 * length c.data_written
  pub bound : c.filling_level ≤ n

pub record Fits (n : ℕ) (d : Decoder) : Type 0 where
  pub chunk : IsChunk n d.mem_chunk
  pub chunks : All (λ c. IsChunk n c × (0 < c.filling_level)) d.pcm_audio.mem_chunk_deque

length-decode_from :
    (tab : List ℤ) (byte : ℕ → ℕ) (start n : ℕ) → length (decode_from tab byte start n) ≡ n
unfolding decode_from
length-decode_from tab byte start zero = refl
length-decode_from tab byte start (suc n) = ap suc (length-decode_from tab byte (start + 1) n)

pub length-decode : (alaw : Bool) (byte : ℕ → ℕ) (start : ℕ) → length (decode alaw byte start) ≡ 160
unfolding decode
length-decode alaw byte start = length-decode_from _ byte start 160

pub recorded-append :
    (cs : List MemChunk) (c : MemChunk) → recorded (cs ++ c ∷ []) ≡ recorded cs ++ c.data_written
recorded-append [] c = append-nil c.data_written
recorded-append (b ∷ cs) c =
    ap (λ s. b.data_written ++ s) (recorded-append cs c)
    ∙ sym (append_assoc b.data_written (recorded cs) c.data_written)

pub gsm_unsupported : (t : ℕ) → (t == 3) ≡ true → is_supported t ≡ false
unfolding is_supported
gsm_unsupported t h = ground arith
