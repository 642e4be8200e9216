-- ===== src/Prelude/Shared.antt =====
-- A store of shared objects: what the `shared_ptr`s of one class point to. A reference is a number;
-- two holders of one reference see each other's writes.
use Prim.Native.Nat.{ℕ}
use mathlib.Core.Path.{◌≡◌}
use mathlib.Core.Logic.{◌≢◌}
use native.Mathlib.Omega.{arith}
use callx.Prelude.Tests.{◌==◌, if◌then◌else◌}

abbrev pub Store {ℓ} : Type ℓ → Type ℓ
Store A = ℕ → A

module _ {ℓ} {A : Type ℓ} where
  abbrev pub update : Store A → ℕ → A → Store A
  update s r v = λ k. if k == r then v else s k

  pub update_self : (s : Store A) (r : ℕ) (v : A) → update s r v r ≡ v
  update_self s r v = ground arith

  pub update_ne : (s : Store A) (r k : ℕ) (v : A) → k ≢ r → update s r v k ≡ s k
  update_ne s r k v h = ground arith
