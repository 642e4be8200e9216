-- ===== src/Output/Files.antt =====
-- `OutputHandler::pushToFile` of src/output/OutputHandler.cpp, over the directory of the files.
use callx.Audio.MemChunk.{MemChunk, PcmAudio}
use callx.Container.Map.{Map, insert, erase}
use callx.Output.Wave.{WaveFileWriter, new_writer, write, close, memory_of}
use callx.Prelude.{
  List, [], ◌∷◌, ◌++◌, Option, none, some, Bytes, bytes_key, codes, take, if◌then◌else◌,
}

-- The file name: the path, the id of the database entry or else that of the call, and the side.
unfoldable pub file_name : Bytes → Option Bytes → PcmAudio → Bytes
file_name path db_call_id p =
    path
    ++ (elim db_call_id [ none ↦ codes p.call_id | some id ↦ id ])
    ++ (if p.is_caller_audio then codes "_caller" else codes "_callee")
    ++ codes ".wav"

-- The loop over the chunks.
unfoldable pub write_chunks : List MemChunk → WaveFileWriter → WaveFileWriter
write_chunks [] w = w
write_chunks (c ∷ rest) w =
    write_chunks rest (write (take c.filling_level (memory_of c.data_written)) c.filling_level w).0

abbrev pub rename : Option (Bytes × Bytes) → Map Bytes Bytes → Map Bytes Bytes
rename none files = files
rename (some (name, contents)) files = insert name contents (erase name files)

-- `pushToFile`, with the destructor of the writer; a file with the name is replaced.
unfoldable pub push_to_file : Bytes → Option Bytes → PcmAudio → Map Bytes Bytes → Map Bytes Bytes
push_to_file path db_call_id p files =
    rename (close (write_chunks p.mem_chunk_deque (new_writer (file_name path db_call_id p)))) files
