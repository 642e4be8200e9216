-- ===== src/Audio/MemChunk.antt =====
-- src/audio/MemChunk.hpp and src/audio/PcmAudio.{hpp,cpp}. The memory of a chunk is the list of the
-- samples written so far; `declare` gives the place after them. Levels and sizes are in bytes.
use callx.Network.Frame.{add_size}
use callx.Prelude.{ℤ, ℕ, Bool, List, [], ◌∷◌, ◌++◌, Option, none, some, String, if◌then◌else◌, ltb}
use callx.Sip.Types.{SipFromTo}

pub record MemChunk : Type 0 where
  pub data_written : List ℤ
  pub size : ℕ
  pub filling_level : ℕ

-- The constructor.
unfoldable pub new_chunk : ℕ → MemChunk
new_chunk size = record { data_written = []; size = size; filling_level = 0 }

-- `declare`, with the samples that the caller writes to the buffer it gets
unfoldable pub declare : ℕ → List ℤ → MemChunk → Option MemChunk
declare size samples c =
    if ltb c.size (add_size c.filling_level size)
    then none
    else some (record c {
      data_written = c.data_written ++ samples;
      filling_level = add_size c.filling_level size;
    })

-- What one sink of a call recorded.
pub record PcmAudio : Type 0 where
  pub call_id : String
  pub caller : SipFromTo
  pub callee : SipFromTo
  pub start_ts : ℕ
  pub is_caller_audio : Bool
  pub mem_chunk_deque : List MemChunk

-- `addChunk`
unfoldable pub add_chunk : MemChunk → PcmAudio → PcmAudio
add_chunk c p = record p { mem_chunk_deque = p.mem_chunk_deque ++ c ∷ [] }
