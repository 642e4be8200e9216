-- ===== src/Output/Reader.antt =====
-- A reader of wave files, apart from src/output/filesystem/WaveFileWriter.cpp: the samples that a file
-- gives back.
use callx.Output.Wave.{le16, word16, memory_of}
use callx.Prelude.{
  ℕ, ◌+◌, ◌-◌, ◌*◌, ◌%◌, ◌/◌, ◌^◌, ◌<◌, ◌≡◌, refl, ap, ℤ, pos, negsuc, List, [], ◌∷◌, ◌++◌, arith,
  All, Bytes, get_or, take, drop, length, ltb, if◌then◌else◌,
}

abbrev pub short : ℕ → ℤ
short n = if ltb n 32768 then pos n else negsuc (65535 - n)

abbrev pub samples_of : Bytes → List ℤ
samples_of [] = []
samples_of (a ∷ []) = []
samples_of (a ∷ b ∷ rest) = short (a + 256 * b) ∷ samples_of rest

-- The number of four bytes from a place on.
abbrev pub number_at : ℕ → Bytes → ℕ
number_at i s =
    get_or s i 0
    + 256 * get_or s (i + 1) 0
    + 65536 * get_or s (i + 2) 0
    + 16777216 * get_or s (i + 3) 0

-- The samples of the data chunk behind the header of 44 bytes, as many as the header says.
abbrev pub read_wave : Bytes → List ℤ
read_wave s = samples_of (take (number_at 40 s) (drop 44 s))

abbrev pub Is16Bit : ℤ → Type 0
Is16Bit (pos n) = n < 32768
Is16Bit (negsuc n) = n < 32768

short-word16 : (s : ℤ) → Is16Bit s → short (word16 s % 256 + 256 * (word16 s / 256 % 256)) ≡ s
short-word16 (pos n) h =
    let e : n % 65536 % 256 + 256 * (n % 65536 / 256 % 256) ≡ n = omega arith in rw e (ground arith)
short-word16 (negsuc n) h =
    let e : (65535 - n % 65536) % 256 + 256 * ((65535 - n % 65536) / 256 % 256) ≡ 65535 - n =
      omega arith in
    let f : 65535 - (65535 - n) ≡ n = omega arith in rw e (ground arith)

pub samples_of-memory_of : (s : List ℤ) → All Is16Bit s → samples_of (memory_of s) ≡ s
samples_of-memory_of [] h = refl
samples_of-memory_of (x ∷ s) h = rw (short-word16 x h.0, samples_of-memory_of s h.1) refl

pub length-memory_of : (s : List ℤ) → length (memory_of s) ≡ 2 * length s
length-memory_of [] = refl
length-memory_of (x ∷ s) = omega (arith, length-memory_of s)

pub memory_of-append : (s t : List ℤ) → memory_of (s ++ t) ≡ memory_of s ++ memory_of t
memory_of-append [] t = refl
memory_of-append (x ∷ s) t = ap (λ m. le16 (word16 x) ++ m) (memory_of-append s t)

pub take-length : (s : Bytes) (n : ℕ) → n ≡ length s → take n s ≡ s
take-length [] n h = rw h refl
take-length (x ∷ s) n h = rw h (ap (λ t. x ∷ t) (take-length s (length s) refl))

pub le32-number :
    (n : ℕ)
    → n < 2 ^ 32
    → n % 256 + 256 * (n / 256 % 256) + 65536 * (n / 65536 % 256) + 16777216 * (n / 16777216 % 256)
      ≡ n
le32-number n h = omega arith
