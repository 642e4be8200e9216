-- ===== src/Container/Map.antt =====
-- The `std::map` under src/container/ThreadFriendlyMap.hpp and under a call's own maps: an
-- association list in the order of the keys.
use callx.Prelude.{
  ℕ, ◌+◌, ◌≤◌, ◌≡◌, refl, List, [], ◌∷◌, ◌++◌, Option, none, some, arith, Key, same, before,
  same_iff, if◌then◌else◌, length, ◌==◌,
}

abbrev pub Map {ℓ κ} : Type ℓ → Type κ → Type (ℓ ⊔ κ)
Map K V = List (K × V)

abbrev pub values {ℓ κ} : {K : Type ℓ} {V : Type κ} → Map K V → List V
values [] = []
values ((b, v) ∷ m) = v ∷ values m

-- How often a number stands in a list.
abbrev pub count : ℕ → List ℕ → ℕ
count a [] = 0
count a (x ∷ xs) = (if x == a then 1 else 0) + count a xs

pub count-append : (a : ℕ) (xs ys : List ℕ) → count a (xs ++ ys) ≡ count a xs + count a ys
count-append a [] ys = omega arith
count-append a (x ∷ xs) ys = ground (arith, count-append a xs ys)

module _ {ℓ κ} {K : Type ℓ} {V : Type κ} ⦃k : Key K⦄ where
  -- `find`
  unfoldable pub find : K → Map K V → Option V
  find a [] = none
  find a ((b, v) ∷ m) = if same b a then some v else find a m

  -- The place of a new key: before the first greater one.
  unfoldable pub place : K → V → Map K V → Map K V
  place a v [] = (a, v) ∷ []
  place a v ((b, w) ∷ m) = if before a b then (a, v) ∷ (b, w) ∷ m else (b, w) ∷ place a v m

  -- `insert`: an entry that is there stays.
  unfoldable pub insert : K → V → Map K V → Map K V
  insert a v m = elim (find a m) [ none ↦ place a v m | some _ ↦ m ]

  -- `erase`, which removes every entry with the key
  unfoldable pub erase : K → Map K V → Map K V
  erase a [] = []
  erase a ((b, v) ∷ m) = let rest = erase a m in if same b a then rest else (b, v) ∷ rest

  -- A write to the value that a key has, as through `iter->second`.
  unfoldable pub set : K → V → Map K V → Map K V
  set a v [] = []
  set a v ((b, w) ∷ m) = (b, if same b a then v else w) ∷ set a v m

  pub find-set :
      (a j : K) (v : V) (m : Map K V)
      → find j (set a v m)
        ≡ elim (find j m) [ none ↦ none | some w ↦ some (if same a j then v else w) ]
  unfolding find set
  find-set a j v [] = refl
  find-set a j v ((b, w) ∷ m) =
      ground (arith, same_iff b a, same_iff b j, same_iff a j, find-set a j v m)

  pub length-set : (a : K) (v : V) (m : Map K V) → length (set a v m) ≡ length m
  unfolding set
  length-set a v [] = refl
  length-set a v ((b, w) ∷ m) = ground (arith, length-set a v m)

  pub find-place :
      (a j : K) (v : V) (m : Map K V)
      → find a m ≡ none
      → find j (place a v m) ≡ (if same a j then some v else find j m)
  unfolding find place
  find-place a j v [] h = refl
  find-place a j v ((b, w) ∷ m) h =
      ground (arith, same_iff b a, same_iff b j, same_iff a j, find-place a j v m)

  -- A lookup after an insertion: the old entry if there was one, else the new one.
  pub find-insert :
      (a j : K) (v : V) (m : Map K V)
      → find j (insert a v m)
        ≡ elim (find j m) [ none ↦ if same a j then some v else none | some w ↦ some w ]
  unfolding insert
  find-insert a j v m = ground (arith, same_iff a j, find-place a j v m)

  pub find-erase :
      (a j : K) (m : Map K V) → find j (erase a m) ≡ (if same a j then none else find j m)
  unfolding find erase
  find-erase a j [] = ground arith
  find-erase a j ((b, w) ∷ m) =
      ground (arith, same_iff b a, same_iff b j, same_iff a j, find-erase a j m)

  length-place : (a : K) (v : V) (m : Map K V) → length (place a v m) ≡ length m + 1
  unfolding place
  length-place a v [] = omega arith
  length-place a v ((b, w) ∷ m) = ground (arith, length-place a v m)

  pub length-insert :
      (a : K) (v : V) (m : Map K V)
      → length (insert a v m) ≡ elim (find a m) [ none ↦ length m + 1 | some _ ↦ length m ]
  unfolding insert
  length-insert a v m = ground (arith, length-place a v m)

  pub length-erase-le : (a : K) (m : Map K V) → length (erase a m) ≤ length m
  unfolding erase
  length-erase-le a [] = omega arith
  length-erase-le a ((b, w) ∷ m) = ground (arith, length-erase-le a m)

-- References in a map, counted.
module _ {ℓ} {K : Type ℓ} ⦃k : Key K⦄ where
  count-place :
      (r : ℕ) (a : K) (v : ℕ) (m : Map K ℕ)
      → count r (values (place a v m)) ≡ count r (v ∷ values m)
  unfolding place
  count-place r a v [] = refl
  count-place r a v ((b, w) ∷ m) = ground (arith, count-place r a v m)

  pub count-insert-le :
      (r : ℕ) (a : K) (v : ℕ) (m : Map K ℕ)
      → count r (values (insert a v m)) ≤ count r (v ∷ values m)
  unfolding insert
  count-insert-le r a v m = ground (arith, count-place r a v m)

  pub count-erase-le :
      (r : ℕ) (a : K) (m : Map K ℕ) → count r (values (erase a m)) ≤ count r (values m)
  unfolding erase
  count-erase-le r a [] = omega arith
  count-erase-le r a ((b, w) ∷ m) = ground (arith, count-erase-le r a m)

  pub count-erase-found :
      (r : ℕ) (a : K) (m : Map K ℕ)
      → find a m ≡ some r
      → count r (values (erase a m)) + 1 ≤ count r (values m)
  unfolding erase find
  count-erase-found r a [] h = cc
  count-erase-found r a ((b, w) ∷ m) h =
      ground (arith, count-erase-found r a m, count-erase-le r a m)
