-- ===== src/Container/Multimap.antt =====
-- The `std::multimap` of src/sip/SipPacket.hpp, `fieldMapType`: a list in the order of the keys, with
-- equal keys in the order of their insertion.
use callx.Container.Map.{Map, find}
use callx.Prelude.{
  ◌≡◌, refl, true, false, [], ◌∷◌, Option, none, some, inl, inr, Bool-cases, arith, Key, same,
  before, same_iff, if◌then◌else◌, All, ◌⊎◌, is_some,
}
use callx.Network.SocketAddress.{IsStrictOrder}

module _ {V : Type 0} {K : Type 0} ⦃k : Key K⦄ where
  -- `insert`: after the last key that is not greater
  unfoldable pub add : K → V → Map K V → Map K V
  add a v [] = (a, v) ∷ []
  add a v ((b, w) ∷ m) = if before a b then (a, v) ∷ (b, w) ∷ m else (b, w) ∷ add a v m

  -- `lower_bound`: the first entry whose key is not less
  unfoldable pub lower_bound : K → Map K V → Option V
  lower_bound a [] = none
  lower_bound a ((b, w) ∷ m) = if before b a then lower_bound a m else some w

  abbrev pub Ascends : K → Map K V → Type 0
  Ascends a m = All (λ e. before e.0 a ≡ false) m

  -- In order: no key is less than one before it.
  abbrev pub IsSorted : Map K V → Type 0
  IsSorted [] = Unit
  IsSorted ((b, w) ∷ m) = Ascends b m × IsSorted m

module _ {V : Type 0} {K : Type 0} ⦃k : Key K⦄ (order : IsStrictOrder {A = K} before) where
  Ascends-add :
      (c a : K) (v : V) (m : Map K V) → before a c ≡ false → Ascends c m → Ascends c (add a v m)
  unfolding add
  Ascends-add c a v [] h l = (h, tt)
  Ascends-add c a v ((b, w) ∷ m) h l = ground (arith, Ascends-add c a v m h l.1)

  Ascends-mono : (a b : K) (m : Map K V) → before b a ≡ false → Ascends b m → Ascends a m
  Ascends-mono a b [] h l = tt
  Ascends-mono a b ((c, w) ∷ m) h l = (
    ground (
      arith,
      order.trans c a b,
      order.trans c b a,
      order.total c b,
      order.total a b,
      order.trans b c a,
    ),
    Ascends-mono a b m h l.1,
  )

  pub add-IsSorted : (a : K) (v : V) (m : Map K V) → IsSorted m → IsSorted (add a v m)
  unfolding add
  add-IsSorted a v [] h = (tt, tt)
  add-IsSorted a v ((b, w) ∷ m) h = elim (Bool-cases (before a b)) [
    | inl l ↦ rw l (
      (
        ground (arith, order.trans a b a, order.irrefl a),
        Ascends-mono a b m (ground (arith, order.trans a b a, order.irrefl a)) h.0,
      ),
      h,
    )
    | inr l ↦ rw l (Ascends-add b a v m l h.0, add-IsSorted a v m h.1)
  ]

  find-below : (a b : K) (m : Map K V) → before a b ≡ true → Ascends b m → find a m ≡ none
  unfolding find
  find-below a b [] l h = refl
  find-below a b ((c, w) ∷ m) l h = ground (arith, same_iff c a, find-below a b m l h.1)

  -- An insertion changes the lookup of its own key only, and only if there was none.
  pub find-add :
      (a j : K) (v : V) (m : Map K V)
      → IsSorted m
      → find j (add a v m)
        ≡ elim (find j m) [ none ↦ if same a j then some v else none | some w ↦ some w ]
  unfolding add find
  find-add a j v [] h = ground arith
  find-add a j v ((b, w) ∷ m) h =
      ground
        (arith, same_iff b j, same_iff a j, find-below a b m, find-add a j v m h.1, order.irrefl a)

  -- The lower bound is the first entry of the least key that is not less.
  pub lower_bound_other :
      (a b : K) (v : V) (m : Map K V)
      → IsSorted m
      → before b a ≡ false
      → ((c : K) → is_some (find c m) ≡ true → (before c a ≡ true) ⊎ (before c b ≡ false))
      → find b m ≡ some v
      → lower_bound a m ≡ some v
  unfolding lower_bound find
  lower_bound_other a b v [] s l g h = cc
  lower_bound_other a b v ((c, w) ∷ m) s l g h = elim (Bool-cases (same c b)) [
    | inl e ↦ ground (arith, same_iff c b)
    | inr e ↦
        let tail = lower_bound_other a b v m s.1 l (λ d f. g d (ground arith)) in
        elim (Bool-cases (before c a)) [
          | inl f ↦ ground arith
          | inr f ↦
              ground (arith, same_iff c b, same_iff c c, g c, order.total c b, find-below b c m)
        ]
  ]
