-- ===== src/Output/EndToEnd.antt =====
-- From the RTP packets of a sink to the wave file: src/audio/AudioHandler.cpp and
-- src/output/OutputHandler.cpp one after the other.
use callx.Audio.Decoding.{running, decode_deque}
use callx.Audio.G711.{decode, decode_from}
use callx.Audio.MemChunk.{PcmAudio}
use callx.Audio.Recording.{decode_deque-IsRecording, is_silent}
use callx.Audio.Samples.{samples, all_samples}
use callx.Audio.Tables.{alaw_decode_tab, ulaw_decode_tab}
use callx.Container.Map.{Map, find}
use callx.Container.Queue.{Queue, push}
use callx.Network.Frame.{size_mod}
use callx.Network.Payload.{Payload}
use callx.Output.Files.{file_name, push_to_file}
use callx.Output.Reader.{read_wave, Is16Bit}
use callx.Output.RoundTrip.{push_to_file-read_wave}
use callx.Prelude.{
  ℕ, zero, suc, ◌+◌, ◌*◌, ◌^◌, ◌≤◌, ◌<◌, ◌≡◌, ◌≢◌, refl, sym, ◌∙◌, ap, subst, ℤ, pos, negsuc, Bool,
  true, false, ◌&&◌, List, [], ◌∷◌, Option, some, arith, All, All-append, Bytes, bytes_key, get_or,
  length, ltb, if◌then◌else◌,
}

abbrev fits : ℤ → Bool
fits (pos n) = ltb n 32768
fits (negsuc n) = ltb n 32768

abbrev all_fit : List ℤ → Bool
all_fit [] = true
all_fit (x ∷ s) = fits x && all_fit s

fits→Is16Bit : (x : ℤ) → fits x ≡ true → Is16Bit x
fits→Is16Bit (pos n) h = ground arith
fits→Is16Bit (negsuc n) h = ground arith

entry-Is16Bit : (tab : List ℤ) (i : ℕ) → all_fit tab ≡ true → Is16Bit (get_or tab i (pos 0))
entry-Is16Bit [] i h = omega arith
entry-Is16Bit (x ∷ tab) zero h = fits→Is16Bit x (ground arith)
entry-Is16Bit (x ∷ tab) (suc i) h = entry-Is16Bit tab i (ground arith)

alaw_fits : all_fit alaw_decode_tab ≡ true
alaw_fits = refl

ulaw_fits : all_fit ulaw_decode_tab ≡ true
ulaw_fits = refl

decode_from-Is16Bit :
    (tab : List ℤ) (byte : ℕ → ℕ) (start n : ℕ)
    → all_fit tab ≡ true
    → All Is16Bit (decode_from tab byte start n)
unfolding decode_from
decode_from-Is16Bit tab byte start zero h = tt
decode_from-Is16Bit tab byte start (suc n) h =
    (entry-Is16Bit tab (byte start) h, decode_from-Is16Bit tab byte (start + 1) n h)

decode-Is16Bit : (alaw : Bool) (byte : ℕ → ℕ) (start : ℕ) → All Is16Bit (decode alaw byte start)
unfolding decode
decode-Is16Bit true byte start = decode_from-Is16Bit alaw_decode_tab byte start 160 alaw_fits
decode-Is16Bit false byte start = decode_from-Is16Bit ulaw_decode_tab byte start 160 ulaw_fits

if-Is16Bit : (b : Bool) (s : List ℤ) → All Is16Bit s → All Is16Bit (if b then s else [])
if-Is16Bit true s h = h
if-Is16Bit false s h = tt

all_samples-Is16Bit : (ps : List Payload) → All Is16Bit (all_samples ps)
all_samples-Is16Bit [] = tt
all_samples-Is16Bit (p ∷ ps) =
    All-append Is16Bit (samples p) (all_samples ps) (if-Is16Bit _ _ (decode-Is16Bit _ p.byte 12))
      (all_samples-Is16Bit ps)

pub not_silent : (s : List ℤ) → s ≢ [] → is_silent s ≡ false
not_silent [] h = absurd (h refl)
not_silent (x ∷ s) h = refl

-- With chunks of at least 320 bytes, the packets of a sink that have samples, and fewer of them than
-- fill 2^32 - 36 bytes, give one recording in the queue; written to a file and read back it has the
-- samples of these packets, in their order.
pub decode_deque-read_wave :
    (n : ℕ) (audio : PcmAudio) (packets : List Payload) (errors : ℕ) (q : Queue PcmAudio)
    (path : Bytes) (id : Option Bytes) (files : Map Bytes Bytes)
    → 320 ≤ n
    → n + 320 < size_mod
    → audio.mem_chunk_deque ≡ []
    → all_samples packets ≢ []
    → 2 * length (all_samples packets) + 36 < 2 ^ 32
    → (result : PcmAudio) × (decode_deque n audio packets errors q
        ≡ running (push result q, packets, errors))
      × ((contents : Bytes) × (find (file_name path id result) (push_to_file path id result files)
            ≡ some contents)
          × (read_wave contents ≡ all_samples packets))
decode_deque-read_wave n audio packets errors q path id files large small fresh sound few =
    let (result, is, run) = decode_deque-IsRecording n audio packets errors q large small fresh in
    let all = is.all_recorded in
    let (contents, found, read, size) =
      push_to_file-read_wave n path id result files is.chunks_filled
        (subst (All Is16Bit) (sym all) (all_samples-Is16Bit packets)) (λ e. sound (sym all ∙ e))
        (subst (λ s. 2 * length s + 36 < 2 ^ 32) (sym all) few) in
    (
      result,
      run
          ∙ ap (λ b. running (if b then q else push result q, packets, errors))
              (not_silent (all_samples packets) sound),
      (contents, found, read ∙ all),
    )
