-- ===== src/Output/RoundTrip.antt =====
-- A recording through `OutputHandler::pushToFile` of src/output/OutputHandler.cpp and back.
use callx.Audio.MemChunk.{MemChunk, PcmAudio}
use callx.Audio.Recording.{Filled}
use callx.Audio.Samples.{recorded}
use callx.Container.Map.{Map, find, insert, erase, find-insert, find-erase}
use callx.Output.Files.{file_name, write_chunks, push_to_file}
use callx.Output.Reader.{
  read_wave, number_at, samples_of, Is16Bit, samples_of-memory_of, length-memory_of,
  memory_of-append, take-length, le32-number,
}
use callx.Output.Wave.{
  WaveFileWriter, new_writer, write, close, memory_of, header_bytes, wave_header,
}
use callx.Prelude.{
  ℕ, ◌+◌, ◌*◌, ◌%◌, ◌^◌, ◌<◌, ◌≡◌, ◌≢◌, refl, sym, ap, ◌∙◌, ℤ, List, [], ◌∷◌, ◌++◌, Option, some,
  arith, All, Bytes, bytes_key, take, length, same_refl, length-append,
}
use mathlib.Core.List.{append-nil, append_assoc}

-- What the loop writes: the samples of the chunks, one after the other, and their size in 32 bits.
write_chunks-written :
    (n : ℕ) (cs : List MemChunk) (w : WaveFileWriter)
    → Filled n cs
    → w.total_size < 2 ^ 32
    → ((write_chunks cs w).written ≡ w.written ++ memory_of (recorded cs))
      × ((write_chunks cs w).total_size ≡ (w.total_size + 2 * length (recorded cs)) % 2 ^ 32)
      × ((write_chunks cs w).filename ≡ w.filename)
unfolding write_chunks write
write_chunks-written n [] w h l = (sym (append-nil w.written), omega arith, refl)
write_chunks-written n (c ∷ cs) w h l =
    let whole =
      take-length (memory_of c.data_written) c.filling_level
        (h.0.0.level ∙ sym (length-memory_of c.data_written)) in
    let v = (write (take c.filling_level (memory_of c.data_written)) c.filling_level w).0 in
    let rest = write_chunks-written n cs v h.1 (omega arith) in
    (
      rest.0
          ∙ ap (λ t. (w.written ++ t) ++ memory_of (recorded cs)) whole
          ∙ append_assoc w.written (memory_of c.data_written) (memory_of (recorded cs))
          ∙ ap (λ t. w.written ++ t) (sym (memory_of-append c.data_written (recorded cs))),
      rest.1 ∙ omega (arith, h.0.0.level, length-append c.data_written (recorded cs)),
      rest.2,
    )

read_wave-file :
    (s : List ℤ)
    → All Is16Bit s
    → 2 * length s < 2 ^ 32
    → read_wave (header_bytes (wave_header (2 * length s)) ++ memory_of s) ≡ s
unfolding header_bytes wave_header
read_wave-file s h l =
    let small : 2 * length s % 2 ^ 32 ≡ 2 * length s = omega arith in
    let number = le32-number (2 * length s % 2 ^ 32) (omega arith) ∙ small in
    ap (λ k. samples_of (take k (memory_of s))) number
    ∙ ap samples_of (take-length (memory_of s) (2 * length s) (sym (length-memory_of s)))
    ∙ samples_of-memory_of s h

riff_size :
    (s : List ℤ)
    → 2 * length s + 36 < 2 ^ 32
    → number_at 4 (header_bytes (wave_header (2 * length s)) ++ memory_of s) + 8
      ≡ length (header_bytes (wave_header (2 * length s)) ++ memory_of s)
unfolding header_bytes wave_header
riff_size s l =
    let number = le32-number ((36 + 2 * length s) % 2 ^ 32) (omega arith) in
    omega (arith, number, length-memory_of s)

replaced :
    (name contents : Bytes) (files : Map Bytes Bytes)
    → find name (insert name contents (erase name files)) ≡ some contents
replaced name contents files = ground (
  arith,
  find-insert name name contents (erase name files),
  find-erase name name files,
  same_refl name,
)

some_samples : (s : List ℤ) → s ≢ [] → 0 < length s
some_samples [] h = absurd (h refl)
some_samples (x ∷ s) h = omega arith

close_written :
    (w : WaveFileWriter) (k : ℕ)
    → w.total_size ≡ k
    → 0 < k
    → close w ≡ some (w.filename, header_bytes (wave_header k) ++ w.written)
unfolding close
close_written w k e h = ground arith

-- A recording whose chunks are filled and whose samples have 16 bits, with fewer than 2^32 - 36 bytes
-- and at least one sample, stands afterwards under its file name: a reader gets its samples back, and
-- the size in the RIFF header is that of the file less 8.
pub push_to_file-read_wave :
    (n : ℕ) (path : Bytes) (id : Option Bytes) (p : PcmAudio) (files : Map Bytes Bytes)
    → Filled n p.mem_chunk_deque
    → All Is16Bit (recorded p.mem_chunk_deque)
    → recorded p.mem_chunk_deque ≢ []
    → 2 * length (recorded p.mem_chunk_deque) + 36 < 2 ^ 32
    → (contents : Bytes) × (find (file_name path id p) (push_to_file path id p files)
        ≡ some contents)
      × (read_wave contents ≡ recorded p.mem_chunk_deque)
      × (number_at 4 contents + 8 ≡ length contents)
unfolding push_to_file new_writer
push_to_file-read_wave n path id p files filled bits sound small =
    let s = recorded p.mem_chunk_deque in
    let name = file_name path id p in
    let (written, total, named) =
      write_chunks-written n p.mem_chunk_deque (new_writer name) filled (omega arith) in
    let size : (0 + 2 * length s) % 2 ^ 32 ≡ 2 * length s = omega arith in
    let closed =
      close_written (write_chunks p.mem_chunk_deque (new_writer name)) (2 * length s) (total ∙ size)
        (omega (arith, some_samples s sound)) in
    (
      header_bytes (wave_header (2 * length s)) ++ memory_of s,
      rw (closed, push_to_file, written, named) (replaced name _ files),
      read_wave-file s bits (omega arith),
      riff_size s small,
    )
