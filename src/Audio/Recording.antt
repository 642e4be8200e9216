-- ===== src/Audio/Recording.antt =====
-- `AudioHandler::decodeRtpPacketDeque` of src/audio/AudioHandler.cpp as a whole.
use callx.Audio.Storing.{new_chunk-IsChunk}
use callx.Audio.Content.{decode_packets-PlayedAll}
use callx.Audio.Decoding.{Decoder, running, decode_deque, finish, start}
use callx.Audio.MemChunk.{MemChunk, new_chunk, add_chunk, PcmAudio}
use callx.Audio.Samples.{
  with_chunks, all_samples, recorded, content, IsChunk, Fits, recorded-append,
}
use callx.Container.Queue.{Queue, push}
use callx.Network.Frame.{size_mod}
use callx.Network.Payload.{Payload}
use callx.Prelude.{
  ℤ, ℕ, ◌+◌, ◌≤◌, ◌<◌, ◌≡◌, refl, sym, ap, ◌∙◌, inl, inr, Bool, true, false, List, [], ◌∷◌, ◌++◌,
  arith, if◌then◌else◌, ltb, length, All, All-append, Bool-cases,
}
use mathlib.Core.List.{append-nil}

abbrev pub is_silent : List ℤ → Bool
is_silent [] = true
is_silent (s ∷ rest) = false

abbrev pub Filled : ℕ → List MemChunk → Type 0
Filled n cs = All (λ c. IsChunk n c × (0 < c.filling_level)) cs

heard : (s t : List ℤ) → 0 < length s → is_silent (s ++ t) ≡ false
heard [] t h = absurd (omega (arith, h))
heard (x ∷ s) t h = refl

silent_if_empty :
    (n : ℕ) (cs : List MemChunk)
    → Filled n cs
    → ltb 0 (length cs) ≡ (if is_silent (recorded cs) then false else true)
silent_if_empty n [] h = refl
silent_if_empty n (c ∷ cs) h =
    ground (arith, heard c.data_written (recorded cs), h.0.0.level, h.0.1)

no_samples : (s : List ℤ) → length s ≡ 0 → s ≡ []
no_samples [] h = refl
no_samples (x ∷ s) h = absurd (omega (arith, h))

finish-Filled :
    (n : ℕ) (d : Decoder)
    → Fits n d
    → Filled n (finish d).mem_chunk_deque × (recorded (finish d).mem_chunk_deque ≡ content d)
unfolding finish add_chunk
finish-Filled n d h = elim (Bool-cases (ltb 0 d.mem_chunk.filling_level)) [
  | inl e ↦
      rw (e, finish)
        (
          All-append (λ c. IsChunk n c × (0 < c.filling_level)) d.pcm_audio.mem_chunk_deque
              (d.mem_chunk ∷ []) h.chunks ((h.chunk, ground arith), tt),
          recorded-append d.pcm_audio.mem_chunk_deque d.mem_chunk,
        )
  | inr e ↦
      let empty : d.mem_chunk.filling_level ≡ 0 = ground arith in
      let none_left = no_samples d.mem_chunk.data_written (omega (arith, h.chunk.level)) in
      rw (e, finish)
        (h.chunks, rw none_left (sym (append-nil (recorded d.pcm_audio.mem_chunk_deque))))
]

-- What goes to the `PcmAudioQueue` for the packets of one sink.
pub record IsRecording (n : ℕ) (packets : List Payload) (audio result : PcmAudio) : Type 0 where
  pub audio_kept : result ≡ with_chunks result.mem_chunk_deque audio
  pub all_recorded : recorded result.mem_chunk_deque ≡ all_samples packets
  pub chunks_filled : Filled n result.mem_chunk_deque

finish-with_chunks : (d : Decoder) → finish d ≡ with_chunks (finish d).mem_chunk_deque d.pcm_audio
unfolding finish add_chunk
finish-with_chunks d = ground arith

nothing_yet :
    (n : ℕ) (audio : PcmAudio) (errors : ℕ)
    → audio.mem_chunk_deque ≡ []
    → content (start n audio errors) ≡ []
unfolding new_chunk
nothing_yet n audio errors h = rw h refl

if_not {ℓ} :
    {B : Type ℓ} (b : Bool) (x y : B)
    → (if (if b then false else true) then x else y) ≡ (if b then y else x)
if_not true x y = refl
if_not false x y = refl

-- With chunks of at least 320 bytes the function never exits. The samples of the packets with a
-- supported type and at least 160 octets are recorded, all of them and in the order of the packets, in
-- chunks that are not empty and within their size, and the recording is pushed exactly if there are
-- samples. Every packet goes back to the pool, and no error in the sequence numbers is counted.
pub decode_deque-IsRecording :
    (n : ℕ) (audio : PcmAudio) (packets : List Payload) (errors : ℕ) (q : Queue PcmAudio)
    → 320 ≤ n
    → n + 320 < size_mod
    → audio.mem_chunk_deque ≡ []
    → (result : PcmAudio) × IsRecording n packets audio result
      × (decode_deque n audio packets errors q
          ≡ running (if is_silent (all_samples packets) then q else push result q, packets, errors))
unfolding decode_deque
decode_deque-IsRecording n audio packets errors q large small none_yet =
    let d = start n audio errors in
    let fits : Fits n d = record {
      chunk = new_chunk-IsChunk n large small;
      chunks = rw none_yet tt;
    } in
    let (e, run, played) = decode_packets-PlayedAll n large small packets d fits refl in
    let (filled, same) = finish-Filled n e played.fits in
    let all_recorded : recorded (finish e).mem_chunk_deque ≡ all_samples packets =
      same
      ∙ played.content_grows
      ∙ ap (λ s. s ++ all_samples packets) (nothing_yet n audio errors none_yet) in
    let pushed = silent_if_empty n (finish e).mem_chunk_deque filled in
    (
      finish e,
      record {
        audio_kept =
            finish-with_chunks e ∙ ap (with_chunks (finish e).mem_chunk_deque) played.same_audio;
        all_recorded = all_recorded;
        chunks_filled = filled;
      },
      rw (run, decode_deque, pushed, all_recorded, played.recycled, played.seq_num_error)
          (ap (λ t. running (t, packets, errors)) (if_not (is_silent (all_samples packets)) _ q)),
    )
