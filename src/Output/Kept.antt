-- ===== src/Output/Kept.antt =====
-- The recordings that `OutputHandler::worker` of src/output/OutputHandler.cpp takes from the queue, as
-- files.
use callx.Audio.MemChunk.{MemChunk, PcmAudio}
use callx.Audio.Recording.{Filled}
use callx.Audio.Samples.{recorded}
use callx.Config.Values.{CallxConfig}
use callx.Container.Map.{Map, find, insert, erase, find-insert, find-erase}
use callx.Container.Queue.{Queue, deactivated, deactivate, wait_and_pop}
use callx.Container.Pops.{pops_first}
use callx.Output.Files.{file_name, write_chunks, push_to_file}
use callx.Output.Reader.{read_wave, Is16Bit}
use callx.Output.RoundTrip.{push_to_file-read_wave}
use callx.Output.Wave.{WaveFileWriter, header_bytes, wave_header, new_writer, write, close}
use callx.Output.Worker.{
  OutputHandler, Surroundings, output_audio, output_round, output_rounds, stop_output,
}
use callx.Prelude.{
  ℕ, zero, suc, ◌+◌, ◌*◌, ◌^◌, ◌<◌, ◌≡◌, ◌≢◌, ◌⊎◌, refl, ap, ◌∙◌, inl, inr, Bool, true, false, List,
  [], ◌∷◌, ◌++◌, Option, none, some, arith, All, All-mono, Bytes, bytes_key, length, same_iff,
  Bool-cases, ◌==◌,
}

write_chunks-filename :
    (cs : List MemChunk) (w : WaveFileWriter) → (write_chunks cs w).filename ≡ w.filename
unfolding write_chunks write
write_chunks-filename [] w = refl
write_chunks-filename (c ∷ cs) w = write_chunks-filename cs _

put_other :
    (a b contents : Bytes) (files : Map Bytes Bytes)
    → a ≢ b
    → find b (insert a contents (erase a files)) ≡ find b files
put_other a b contents files h =
    grind (arith, find-insert a b contents (erase a files), find-erase a b files, same_iff a b)

close_named :
    (w : WaveFileWriter) (a : Bytes)
    → w.filename ≡ a
    → (close w ≡ none) ⊎ ((contents : Bytes) × (close w ≡ some (a, contents)))
unfolding close
close_named w a h = elim (Bool-cases (w.total_size == 0)) [
  | inl e ↦ inl (simp (e, close))
  | inr e ↦ inr (header_bytes (wave_header w.total_size) ++ w.written, simp (e, h, close))
]

-- The files under other names stay.
push_to_file-other :
    (path : Bytes) (id : Option Bytes) (p : PcmAudio) (files : Map Bytes Bytes) (name : Bytes)
    → file_name path id p ≢ name
    → find name (push_to_file path id p files) ≡ find name files
unfolding push_to_file new_writer
push_to_file-other path id p files name h =
    let w = write_chunks p.mem_chunk_deque (new_writer (file_name path id p)) in
    elim (close_named w (file_name path id p) (write_chunks-filename p.mem_chunk_deque _)) [
      | inl e ↦ simp (e, push_to_file)
      | inr (contents, e) ↦
          rw (push_to_file, e) (put_other (file_name path id p) name contents files h)
    ]

-- A recording as the decoder makes it.
pub record IsPlayable (n : ℕ) (p : PcmAudio) : Type 0 where
  pub filled : Filled n p.mem_chunk_deque
  pub bits : All Is16Bit (recorded p.mem_chunk_deque)
  pub sound : recorded p.mem_chunk_deque ≢ []
  pub small : 2 * length (recorded p.mem_chunk_deque) + 36 < 2 ^ 32

no_chunks : (cs : List MemChunk) → recorded cs ≢ [] → (length cs == 0) ≡ false
no_chunks [] h = absurd (h refl)
no_chunks (c ∷ cs) h = ground arith

module _ {D : Type 0} (config : CallxConfig) (around : Surroundings D) where
  abbrev pub name_of : PcmAudio → Bytes
  name_of = file_name config.wave_output_path none

  abbrev pub Apart : PcmAudio → List PcmAudio → Type 0
  Apart p ps = All (λ q. name_of q ≢ name_of p) ps

  abbrev pub AllApart : List PcmAudio → Type 0
  AllApart [] = Unit
  AllApart (p ∷ ps) = Apart p ps × AllApart ps

  -- The file of a recording is there, and a reader gets its samples.
  abbrev pub Stands : Map Bytes Bytes → PcmAudio → Type 0
  Stands files p =
      (contents : Bytes) × (find (name_of p) files ≡ some contents)
      × (read_wave contents ≡ recorded p.mem_chunk_deque)

  module _ (waves : config.use_wavefile_output_interface ≡ true)
      (plain : config.use_viat_db ≡ false) where
    output_audio_files :
        (p : PcmAudio) (h : OutputHandler D)
        → recorded p.mem_chunk_deque ≢ []
        → ((output_audio config around p h).files
            ≡ push_to_file config.wave_output_path none p h.files)
          × ((output_audio config around p h).pcm_audio_queue ≡ h.pcm_audio_queue)
    unfolding output_audio
    output_audio_files p h s = ground (arith, no_chunks p.mem_chunk_deque s)

    round_pops :
        (p : PcmAudio) (ps : List PcmAudio) (h : OutputHandler D)
        → h.pcm_audio_queue.activated ≡ true
        → h.pcm_audio_queue.items ≡ p ∷ ps
        → recorded p.mem_chunk_deque ≢ []
        → ((output_round config around h).files
            ≡ push_to_file config.wave_output_path none p h.files)
          × ((output_round config around h).pcm_audio_queue.items ≡ ps)
          × ((output_round config around h).pcm_audio_queue.activated ≡ true)
    unfolding output_round
    round_pops p ps h a e s =
        let popping = pops_first p ps h.pcm_audio_queue a e in
        let (files, queue) =
          output_audio_files p
            (record h { pcm_audio_queue = record h.pcm_audio_queue { items = ps } }) s in
        rw (output_round, popping) (files, ap (λ r. r.items) queue, ap (λ r. r.activated) queue ∙ a)

    rounds_keep :
        (name contents : Bytes) (ps : List PcmAudio) (h : OutputHandler D)
        → h.pcm_audio_queue.activated ≡ true
        → h.pcm_audio_queue.items ≡ ps
        → All (λ p. recorded p.mem_chunk_deque ≢ []) ps
        → All (λ p. name_of p ≢ name) ps
        → find name h.files ≡ some contents
        → find name (output_rounds config around (length ps) h).files ≡ some contents
    unfolding output_rounds
    rounds_keep name contents [] h a e s d f = f
    rounds_keep name contents (p ∷ ps) h a e s d f =
        let (files, queue, active) = round_pops p ps h a e s.0 in
        rounds_keep name contents ps (output_round config around h) active queue s.1 d.1 (
          ap (find name) files
          ∙ push_to_file-other config.wave_output_path none p h.files name d.0
          ∙ f)

    rounds_stand :
        (n : ℕ) (ps : List PcmAudio) (h : OutputHandler D)
        → h.pcm_audio_queue.activated ≡ true
        → h.pcm_audio_queue.items ≡ ps
        → All (IsPlayable n) ps
        → AllApart ps
        → All (Stands (output_rounds config around (length ps) h).files) ps
          × ((output_rounds config around (length ps) h).pcm_audio_queue.items ≡ [])
    unfolding output_rounds
    rounds_stand n [] h a e g d = (tt, e)
    rounds_stand n (p ∷ ps) h a e g d =
        let (files, queue, active) = round_pops p ps h a e g.0.sound in
        let next = output_round config around h in
        let (contents, found, read, size) =
          push_to_file-read_wave n config.wave_output_path none p h.files g.0.filled g.0.bits
            g.0.sound g.0.small in
        let (rest, empty) = rounds_stand n ps next active queue g.1 d.1 in
        let kept =
          rounds_keep (name_of p) contents ps next active queue
            (All-mono (IsPlayable n) (λ q. recorded q.mem_chunk_deque ≢ []) ps (λ q i. i.sound) g.1)
            d.0 (ap (find (name_of p)) files ∙ found) in
        (((contents, kept, read), rest), empty)

-- Where waves are written and the database is not used: as many rounds as an active queue has
-- recordings, each with samples of 16 bits in filled chunks and fewer than 2^32 - 36 bytes, with no two
-- file names the same, leave it empty, and every recording has a file from which a reader gets its
-- samples.
pub output_rounds-Stands :
    {D : Type 0} (config : CallxConfig) (around : Surroundings D) (n : ℕ) (h : OutputHandler D)
    → config.use_wavefile_output_interface ≡ true
    → config.use_viat_db ≡ false
    → h.pcm_audio_queue.activated ≡ true
    → All (IsPlayable n) h.pcm_audio_queue.items
    → AllApart config around h.pcm_audio_queue.items
    → All
        (Stands config around
          (output_rounds config around (length h.pcm_audio_queue.items) h).files)
        h.pcm_audio_queue.items
      × ((output_rounds config around (length h.pcm_audio_queue.items) h).pcm_audio_queue.items
          ≡ [])
output_rounds-Stands config around n h waves plain active good apart =
    rounds_stand config around waves plain n h.pcm_audio_queue.items h active refl good apart

waits_no_more : {P : Type 0} (q : Queue P) → wait_and_pop (deactivate q) ≡ deactivated
unfolding wait_and_pop deactivate
waits_no_more q = refl

-- After `stop` the rounds of the worker take nothing from the queue and change nothing, however many
-- follow: the recordings that are in the queue then stay there, and no file is made for them.
pub stop_output-output_rounds :
    {D : Type 0} (config : CallxConfig) (around : Surroundings D) (stopped_at : ℕ → Bool)
    (h : OutputHandler D) (n : ℕ)
    → (output_rounds config around n (stop_output config around stopped_at h).0
        ≡ (stop_output config around stopped_at h).0)
      × ((stop_output config around stopped_at h).0.pcm_audio_queue.items ≡ h.pcm_audio_queue.items)
      × ((stop_output config around stopped_at h).0.files ≡ h.files)
unfolding output_rounds output_round stop_output deactivate
stop_output-output_rounds config around stopped_at h zero = (refl, refl, refl)
stop_output-output_rounds config around stopped_at h (suc n) =
    let t = (stop_output config around stopped_at h).0 in
    let same : output_round config around t ≡ t =
      rw (output_round, waits_no_more h.pcm_audio_queue) refl in
    let (rest, items, files) = stop_output-output_rounds config around stopped_at h n in
    (ap (output_rounds config around n) same ∙ rest, items, files)
