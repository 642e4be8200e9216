-- ===== src/Audio/G711.antt =====
-- src/audio/G711Decoder.cpp: the table of a decoder and the loop over its input.
use callx.Audio.Tables.{alaw_decode_tab, ulaw_decode_tab}
use callx.Prelude.{ℤ, pos, ℕ, zero, suc, ◌+◌, Bool, List, [], ◌∷◌, get_or, if◌then◌else◌}

-- `inBufSize` and `outBufSize`, in bytes
abbrev pub in_buf_size : ℕ
in_buf_size = 160

abbrev pub out_buf_size : ℕ
out_buf_size = 320

-- The constructor's choice.
abbrev pub decode_tab : Bool → List ℤ
decode_tab alaw = if alaw then alaw_decode_tab else ulaw_decode_tab

-- The loop of `decode` over `n` bytes from `start` on. An octet is always below 256.
unfoldable pub decode_from : List ℤ → (ℕ → ℕ) → ℕ → ℕ → List ℤ
decode_from tab byte start zero = []
decode_from tab byte start (suc n) =
    get_or tab (byte start) (pos 0) ∷ decode_from tab byte (start + 1) n

-- `decode`: one sample for each octet of the input buffer
unfoldable pub decode : Bool → (ℕ → ℕ) → ℕ → List ℤ
decode alaw byte start = decode_from (decode_tab alaw) byte start in_buf_size
