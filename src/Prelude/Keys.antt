-- ===== src/Prelude/Keys.antt =====
-- What the program asks of a key type: the equality and the strict order by which `std::map` and
-- the code's own comparisons work. Texts are compared byte by byte, as `std::string` is.
use Prim.Native.Nat.{Ordering}
use Prim.Native.String.{String, compare}
use text.Mathlib.Text.{◌==◌ as str_eq}
use text.Mathlib.TextEquality.{eq_iff}
use mathlib.Core.Path.{◌≡◌, refl}
use mathlib.Core.Logic.{◌↔◌}
use mathlib.Core.Bool.{Bool, true, false}

pub record Key {ℓ} (K : Type ℓ) : Type ℓ where
  pub beq : K → K → Bool
  pub less : K → K → Bool
  pub beq_iff : (a b : K) → (beq a b ≡ true) ↔ (a ≡ b)

abbrev pub same {ℓ} : {K : Type ℓ} ⦃k : Key K⦄ → K → K → Bool
same ⦃k⦄ = k.beq

abbrev pub before {ℓ} : {K : Type ℓ} ⦃k : Key K⦄ → K → K → Bool
before ⦃k⦄ = k.less

pub same_iff {ℓ} : {K : Type ℓ} ⦃k : Key K⦄ (a b : K) → (same a b ≡ true) ↔ (a ≡ b)
same_iff ⦃k⦄ = k.beq_iff

pub same_refl {ℓ} : {K : Type ℓ} ⦃k : Key K⦄ (a : K) → same a a ≡ true
same_refl ⦃k⦄ a = (k.beq_iff a a).1 refl

abbrev pub str_less : String → String → Bool
str_less a b = elim (compare a b) [ Ordering.lt ↦ true | _ ↦ false ]

instance abbrev pub string_key : Key String
string_key = record { beq = str_eq; less = str_less; beq_iff = eq_iff }
