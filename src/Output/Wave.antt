-- ===== src/Output/Wave.antt =====
-- src/output/filesystem/WaveFileWriter.{hpp,cpp} and RawFileWriter.{hpp,cpp}: a file as its bytes, on a
-- little-endian machine. The C library's calls succeed.
use callx.Prelude.{
  ℕ, ◌+◌, ◌-◌, ◌/◌, ◌%◌, ◌^◌, ℤ, pos, negsuc, Bool, List, [], ◌∷◌, ◌++◌, Option, none, some, Bytes,
  ◌==◌, if◌then◌else◌,
}

-- Two and four bytes of memory.
abbrev pub le16 : ℕ → Bytes
le16 n = n % 256 ∷ n / 256 % 256 ∷ []

abbrev pub le32 : ℕ → Bytes
le32 n = n % 256 ∷ n / 256 % 256 ∷ n / 65536 % 256 ∷ n / 16777216 % 256 ∷ []

-- A `short` as the number of its 16 bits.
abbrev pub word16 : ℤ → ℕ
word16 (pos n) = n % 65536
word16 (negsuc n) = 65535 - n % 65536

abbrev pub memory_of : List ℤ → Bytes
memory_of [] = []
memory_of (s ∷ rest) = le16 (word16 s) ++ memory_of rest

pub record WaveHeader : Type 0 where
  pub rw_chunk_id : ℕ
  pub rw_chunk_size : ℕ
  pub rw_riff_type : ℕ
  pub f_chunk_id : ℕ
  pub f_chunk_size : ℕ
  pub f_format : ℕ
  pub f_num_channels : ℕ
  pub f_sample_rate : ℕ
  pub f_byte_rate : ℕ
  pub f_block_align : ℕ
  pub f_bits_per_sample : ℕ
  pub d_chunk_id : ℕ
  pub d_chunk_size : ℕ

-- The header's memory.
unfoldable pub header_bytes : WaveHeader → Bytes
header_bytes h =
    le32 h.rw_chunk_id
    ++ le32 h.rw_chunk_size
    ++ le32 h.rw_riff_type
    ++ le32 h.f_chunk_id
    ++ le32 h.f_chunk_size
    ++ le16 h.f_format
    ++ le16 h.f_num_channels
    ++ le32 h.f_sample_rate
    ++ le32 h.f_byte_rate
    ++ le16 h.f_block_align
    ++ le16 h.f_bits_per_sample
    ++ le32 h.d_chunk_id
    ++ le32 h.d_chunk_size

-- The header that the destructor writes; its members have 32 bits.
unfoldable pub wave_header : ℕ → WaveHeader
wave_header total_size = record {
  rw_chunk_id = 0x46464952;
  rw_chunk_size = (36 + total_size) % 2 ^ 32;
  rw_riff_type = 0x45564157;
  f_chunk_id = 0x20746D66;
  f_chunk_size = 16;
  f_format = 1;
  f_num_channels = 1;
  f_sample_rate = 8000;
  f_byte_rate = 16000;
  f_block_align = 2;
  f_bits_per_sample = 16;
  d_chunk_id = 0x61746164;
  d_chunk_size = total_size % 2 ^ 32;
}

-- The writer: its file name, what was written behind the header, and `totalSize`, of 32 bits.
pub record WaveFileWriter : Type 0 where
  pub filename : Bytes
  pub written : Bytes
  pub total_size : ℕ

-- The constructor, after which the header's place is filled with what the object held.
unfoldable pub new_writer : Bytes → WaveFileWriter
new_writer filename = record { filename = filename; written = []; total_size = 0 }

-- `RawFileWriter::write` of a buffer: `fwrite` returns the number of items, 1, and not that of bytes.
unfoldable pub write : Bytes → ℕ → WaveFileWriter → WaveFileWriter × Bool
write buffer size w = (
  record w { written = w.written ++ buffer; total_size = (w.total_size + size) % 2 ^ 32 },
  1 == size,
)

-- What the destructor leaves: the file under its name, or none where nothing was written.
unfoldable pub close : WaveFileWriter → Option (Bytes × Bytes)
close w =
    if w.total_size == 0
    then none
    else some (w.filename, header_bytes (wave_header w.total_size) ++ w.written)
