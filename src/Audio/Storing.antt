-- ===== src/Audio/Storing.antt =====
-- A place in a chunk, as `AudioHandler::decodeRtpPacketDeque` of src/audio/AudioHandler.cpp finds it.
use callx.Audio.Decoding.{Decoder, running, store}
use callx.Audio.G711.{}
use callx.Audio.MemChunk.{MemChunk, new_chunk, declare, add_chunk}
use callx.Audio.Samples.{with_chunks, recorded, content, IsChunk, Fits, recorded-append}
use callx.Network.Frame.{size_mod}
use callx.Prelude.{
  ℤ, ℕ, ◌+◌, ◌%◌, leb, ◌≤◌, ◌<◌, ◌≡◌, refl, sym, ap, inl, inr, List, [], ◌∷◌, ◌++◌, none, some,
  arith, length, length-append, All-append, Bool-cases,
}
use mathlib.Core.List.{append_assoc}

-- A place in a chunk of at least 320 bytes.
pub record Stored (n : ℕ) (s : List ℤ) (d e : Decoder) : Type 0 where
  pub fits : Fits n e
  pub content_grows : content e ≡ content d ++ s
  pub same_audio : e.pcm_audio ≡ with_chunks e.pcm_audio.mem_chunk_deque d.pcm_audio
  pub recycled : e.recycled ≡ d.recycled
  pub seq_num_prev : e.seq_num_prev ≡ d.seq_num_prev
  pub seq_num_error : e.seq_num_error ≡ d.seq_num_error

abbrev with_samples : List ℤ → MemChunk → MemChunk
with_samples s c = record c {
  data_written = c.data_written ++ s;
  filling_level = c.filling_level + 320;
}

module _ (n : ℕ) (large : 320 ≤ n) (small : n + 320 < size_mod) where
  declare_room :
      (s : List ℤ) (c : MemChunk)
      → IsChunk n c
      → c.filling_level + 320 ≤ n
      → declare 320 s c ≡ some (with_samples s c)
  unfolding declare
  declare_room s c h room =
      let wrap : (c.filling_level + 320) % size_mod ≡ c.filling_level + 320 =
        omega (arith, small, room) in
      ground (arith, h.size)

  declare_full :
      (s : List ℤ) (c : MemChunk) → IsChunk n c → n < c.filling_level + 320 → declare 320 s c ≡ none
  unfolding declare
  declare_full s c h full =
      let wrap : (c.filling_level + 320) % size_mod ≡ c.filling_level + 320 =
        omega (arith, h.bound) in
      ground (arith, h.size)

  with_samples-IsChunk :
      (s : List ℤ) (c : MemChunk)
      → length s ≡ 160
      → IsChunk n c
      → c.filling_level + 320 ≤ n
      → IsChunk n (with_samples s c)
  with_samples-IsChunk s c l h room = record {
    size = h.size;
    level = omega (arith, h.level, l, length-append c.data_written s);
    bound = room;
  }

  pub new_chunk-IsChunk : IsChunk n (new_chunk n)
  unfolding new_chunk
  new_chunk-IsChunk = record { size = refl; level = refl; bound = omega arith }

  pub store-Stored :
      (s : List ℤ) (d : Decoder)
      → length s ≡ 160
      → Fits n d
      → (e : Decoder) × (store n s d ≡ running e) × Stored n s d e
  unfolding store add_chunk new_chunk
  store-Stored s d l h = elim (Bool-cases (leb (d.mem_chunk.filling_level + 320) n)) [
    | inl room ↦
        let here = declare_room s d.mem_chunk h.chunk (ground arith) in
        (
          record d { mem_chunk = with_samples s d.mem_chunk },
          rw (here, store) refl,
          record {
            fits = record {
              chunk = with_samples-IsChunk s d.mem_chunk l h.chunk (ground arith);
              chunks = h.chunks;
            };
            content_grows =
                sym
                  (append_assoc (recorded d.pcm_audio.mem_chunk_deque) d.mem_chunk.data_written s);
            same_audio = refl;
            recycled = refl;
            seq_num_prev = refl;
            seq_num_error = refl;
          },
        )
    | inr full ↦
        let here = declare_full s d.mem_chunk h.chunk (ground arith) in
        let there = declare_room s (new_chunk n) new_chunk-IsChunk large in
        (
          record d {
            pcm_audio = add_chunk d.mem_chunk d.pcm_audio;
            mem_chunk = with_samples s (new_chunk n);
          },
          rw (here, there, store) refl,
          record {
            fits = record {
              chunk = with_samples-IsChunk s (new_chunk n) l new_chunk-IsChunk large;
              chunks =
                  All-append _ d.pcm_audio.mem_chunk_deque (d.mem_chunk ∷ []) h.chunks
                    ((h.chunk, ground arith), tt);
            };
            content_grows =
                ap (λ t. t ++ s) (recorded-append d.pcm_audio.mem_chunk_deque d.mem_chunk);
            same_audio = refl;
            recycled = refl;
            seq_num_prev = refl;
            seq_num_error = refl;
          },
        )
  ]
