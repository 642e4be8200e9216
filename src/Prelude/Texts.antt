-- ===== src/Prelude/Texts.antt =====
-- Texts as the numbers of their bytes, where the program walks them: `std::toupper` of the C locale,
-- the order of `std::string`, and the digits that `strtoul` and a stream read.
use Prim.Native.Nat.{ℕ, ◌+◌, ◌-◌, ◌*◌}
use Prim.Native.Char.{code}
use Prim.Native.String.{String}
use mathlib.Core.Path.{◌≡◌, refl}
use mathlib.Core.Logic.{◌↔◌}
use mathlib.Core.Bool.{Bool, true, false, ◌&&◌, ◌||◌}
use mathlib.Core.List.{List, [], ◌∷◌}
use native.Mathlib.Omega.{arith}
use callx.Prelude.Keys.{Key}
use callx.Prelude.Tests.{ltb, leb, ◌==◌, if◌then◌else◌}

abbrev pub Bytes : Type 0
Bytes = List ℕ

abbrev pub codes : String → Bytes
codes String.[] = []
codes (String.◌∷◌ c s) = code c ∷ codes s

-- `c_str()`: the text up to its first null byte.
unfoldable pub c_str : String → String
c_str String.[] = String.[]
c_str (String.◌∷◌ c s) = let rest = c_str s in if code c == 0 then String.[] else String.◌∷◌ c rest

unfoldable pub to_upper : ℕ → ℕ
to_upper c = if leb b'a' c && leb c b'z' then c - 32 else c

abbrev pub bytes_equal : Bytes → Bytes → Bool
bytes_equal [] [] = true
bytes_equal [] (d ∷ t) = false
bytes_equal (c ∷ s) [] = false
bytes_equal (c ∷ s) (d ∷ t) = c == d && bytes_equal s t

abbrev pub bytes_less : Bytes → Bytes → Bool
bytes_less [] [] = false
bytes_less [] (d ∷ t) = true
bytes_less (c ∷ s) [] = false
bytes_less (c ∷ s) (d ∷ t) = ltb c d || (c == d && bytes_less s t)

equal→eq : (s t : Bytes) → bytes_equal s t ≡ true → s ≡ t
equal→eq [] [] h = refl
equal→eq [] (d ∷ t) h = cc
equal→eq (c ∷ s) [] h = cc
equal→eq (c ∷ s) (d ∷ t) h = ground (arith, equal→eq s t)

equal_refl : (s : Bytes) → bytes_equal s s ≡ true
equal_refl [] = refl
equal_refl (c ∷ s) = ground (arith, equal_refl s)

eq→equal : (s t : Bytes) → s ≡ t → bytes_equal s t ≡ true
eq→equal s t h = rw (h, equal_refl t)

pub bytes_equal_iff : (s t : Bytes) → (bytes_equal s t ≡ true) ↔ (s ≡ t)
bytes_equal_iff s t = (equal→eq s t, eq→equal s t)

instance abbrev pub bytes_key : Key Bytes
bytes_key = record { beq = bytes_equal; less = bytes_less; beq_iff = bytes_equal_iff }

pub bytes_less_irrefl : (s : Bytes) → bytes_less s s ≡ false
bytes_less_irrefl [] = refl
bytes_less_irrefl (c ∷ s) = ground (arith, bytes_less_irrefl s)

pub bytes_less_trans :
    (s t u : Bytes) → bytes_less s t ≡ true → bytes_less t u ≡ true → bytes_less s u ≡ true
bytes_less_trans [] [] u h l = cc
bytes_less_trans [] (d ∷ t) [] h l = cc
bytes_less_trans [] (d ∷ t) (e ∷ u) h l = refl
bytes_less_trans (c ∷ s) [] u h l = cc
bytes_less_trans (c ∷ s) (d ∷ t) [] h l = cc
bytes_less_trans (c ∷ s) (d ∷ t) (e ∷ u) h l = ground (arith, bytes_less_trans s t u)

pub bytes_less_total : (s t : Bytes) → bytes_less s t ≡ false → bytes_less t s ≡ false → s ≡ t
bytes_less_total [] [] h l = refl
bytes_less_total [] (d ∷ t) h l = cc
bytes_less_total (c ∷ s) [] h l = cc
bytes_less_total (c ∷ s) (d ∷ t) h l = ground (arith, bytes_less_total s t)

-- `find(prefix) == 0`
abbrev pub starts : Bytes → Bytes → Bool
starts [] t = true
starts (c ∷ s) [] = false
starts (c ∷ s) (d ∷ t) = c == d && starts s t

abbrev pub is_digit : ℕ → Bool
is_digit c = leb b'0' c && leb c b'9'

-- The number that the leading digits of a text write, after those of `n`.
unfoldable pub number_from : ℕ → Bytes → ℕ
number_from n [] = n
number_from n (c ∷ s) = elim (is_digit c) [ true ↦ number_from (10 * n + (c - b'0')) s | false ↦ n ]
