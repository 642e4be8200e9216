-- ===== src/Container/Entries.antt =====
-- Properties of the entries of src/container/ThreadFriendlyMap.hpp that an insertion and an erasure
-- keep.
use callx.Container.Map.{Map, find, place, insert, erase}
use callx.Prelude.{
  ◌≡◌, refl, sym, subst, true, false, [], ◌∷◌, none, some, arith, Key, same, before, same_iff, All,
  Bool-cases, inl, inr,
}

module _ {ℓ κ} {K : Type ℓ} {V : Type κ} ⦃k : Key K⦄ where
  found_value :
      (a b : K) (v w : V) (m : Map K V) → same b a ≡ true → find a ((b, w) ∷ m) ≡ some v → w ≡ v
  unfolding find
  found_value a b v w m h e = ground arith

module _ {ℓ κ μ} {K : Type ℓ} {V : Type κ} ⦃k : Key K⦄ (P : K × V → Type μ) where
  All-place : (a : K) (v : V) (m : Map K V) → P (a, v) → All P m → All P (place a v m)
  unfolding place
  All-place a v [] h hs = (h, tt)
  All-place a v ((b, w) ∷ m) h hs = elim (Bool-cases (before a b)) [
    | inl e ↦ rw e (h, hs)
    | inr e ↦ rw e (hs.0, All-place a v m h hs.1)
  ]

  insert-absent : (a : K) (v : V) (m : Map K V) → find a m ≡ none → insert a v m ≡ place a v m
  unfolding insert
  insert-absent a v m e = rw (e, insert) refl

  pub All-insert :
      (a : K) (v : V) (m : Map K V) → find a m ≡ none → P (a, v) → All P m → All P (insert a v m)
  All-insert a v m e h hs = subst (All P) (sym (insert-absent a v m e)) (All-place a v m h hs)

  -- What is left has another key.
  pub All-erase :
      (a : K) (m : Map K V) → All P m → All (λ e. P e × (same a e.0 ≡ false)) (erase a m)
  unfolding erase
  All-erase a [] hs = tt
  All-erase a ((b, w) ∷ m) hs = elim (Bool-cases (same b a)) [
    | inl e ↦ rw e (All-erase a m hs.1)
    | inr e ↦ rw e ((hs.0, ground (arith, same_iff a b, same_iff b a)), All-erase a m hs.1)
  ]

  pub All-find : (a : K) (v : V) (m : Map K V) → All P m → find a m ≡ some v → P (a, v)
  unfolding find
  All-find a v [] hs e = cc
  All-find a v ((b, w) ∷ m) hs e = elim (Bool-cases (same b a)) [
    | inl hit ↦
        subst (λ x. P (x, v)) ((same_iff b a).0 hit)
          (subst (λ y. P (b, y)) (found_value a b v w m hit e) hs.0)
    | inr miss ↦ All-find a v m hs.1 (ground arith)
  ]
