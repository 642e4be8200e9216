-- ===== src/Sba/Worst.antt =====
-- The choice of the worst incidents of a caller in `SbaIncidentMap::toString`,
-- src/container/SbaIncidentMap.hpp. The set of a caller is ordered by its pointers, so a list in any
-- order stands for it.
use callx.Container.Map.{Map, find-insert, find-erase}
use callx.Container.Map
use callx.Prelude.{
  ℕ, ◌≤◌, ◌≡◌, ◌↔◌, refl, sym, subst, ap, ◌∙◌, Bool, true, false, List, [], ◌∷◌, Option, none, some,
  arith, Key, same, same_iff, ltb, ◌==◌, ◌&&◌, ◌||◌, not, if◌then◌else◌, All, is_some,
}
use callx.Sba.Types.{IncidentType, SbaIncident}

abbrev pub type_code : IncidentType → ℕ
type_code IncidentType.generic = 0
type_code IncidentType.call_attempts = 1
type_code IncidentType.call_completion = 2
type_code IncidentType.call_duration_average = 3
type_code IncidentType.calls_closed_by_callee = 4
type_code IncidentType.call_duration_cumulative = 5
type_code IncidentType.calls_concurrent = 6

pub type_code_injective : (a b : IncidentType) → ((type_code a == type_code b) ≡ true) ↔ (a ≡ b)
type_code_injective a b = ground arith

instance abbrev pub type_key : Key IncidentType
type_key = record {
  beq = λ a b. type_code a == type_code b;
  less = λ a b. ltb (type_code a) (type_code b);
  beq_iff = type_code_injective;
}

-- Whether `x` replaces `y`.
unfoldable pub is_worse : SbaIncident → SbaIncident → Bool
is_worse x y =
    (ltb y.value x.value && x.higher_value_is_evil)
    || (ltb x.value y.value && not x.higher_value_is_evil)

-- The body of the loop over the set, on the `incidentEvilMap`.
unfoldable pub keep_worst :
    SbaIncident → Map IncidentType SbaIncident → Map IncidentType SbaIncident
unfolding is_worse
keep_worst x m = elim (Map.find x.kind m) [
  | none ↦ Map.insert x.kind x m
  | some y ↦ if is_worse x y then Map.insert x.kind x (Map.erase x.kind m) else m
]

unfoldable pub worst_from :
    List SbaIncident → Map IncidentType SbaIncident → Map IncidentType SbaIncident
worst_from [] m = m
worst_from (x ∷ xs) m = worst_from xs (keep_worst x m)

-- The choice for one type.
pick : SbaIncident → Option SbaIncident → Option SbaIncident
unfolding is_worse
pick x none = some x
pick x (some y) = some (if is_worse x y then x else y)

pick_if : Bool → SbaIncident → Option SbaIncident → Option SbaIncident
unfolding pick
pick_if b x o = if b then pick x o else o

worst_of : IncidentType → List SbaIncident → Option SbaIncident → Option SbaIncident
worst_of t [] o = o
worst_of t (x ∷ xs) o = worst_of t xs (pick_if (same x.kind t) x o)

find-keep_worst :
    (t : IncidentType) (x : SbaIncident) (m : Map IncidentType SbaIncident)
    → Map.find t (keep_worst x m) ≡ pick_if (same x.kind t) x (Map.find t m)
unfolding keep_worst pick_if
find-keep_worst t x m = ground (
  arith,
  find-insert x.kind t x m,
  find-insert x.kind t x (Map.erase x.kind m),
  find-erase x.kind t m,
  same_iff x.kind t,
)

find-worst_from :
    (t : IncidentType) (xs : List SbaIncident) (m : Map IncidentType SbaIncident)
    → Map.find t (worst_from xs m) ≡ worst_of t xs (Map.find t m)
unfolding worst_from worst_of
find-worst_from t [] m = refl
find-worst_from t (x ∷ xs) m =
    find-worst_from t xs (keep_worst x m) ∙ ap (worst_of t xs) (find-keep_worst t x m)

-- `z` is as bad as `x`, where higher values are bad or where lower ones are.
abbrev pub AtLeast : Bool → SbaIncident → SbaIncident → Type 0
AtLeast higher z x = (higher ≡ true → x.value ≤ z.value) × (higher ≡ false → z.value ≤ x.value)

abbrev pub Uniform : IncidentType → Bool → SbaIncident → Type 0
Uniform t higher x = same x.kind t ≡ true → x.higher_value_is_evil ≡ higher

abbrev or_else : SbaIncident → Option SbaIncident → SbaIncident
or_else y none = y
or_else y (some v) = v

or_assoc : (a b c : Bool) → ((a || b) || c) ≡ (a || (b || c))
or_assoc a b c = ground arith

AtLeast-self : (higher : Bool) (x : SbaIncident) → AtLeast higher x x
AtLeast-self higher x = (λ e. omega arith, λ e. omega arith)

-- Whichever of two incidents stays, the other is no worse.
AtLeast-stays :
    (higher : Bool) (x y z : SbaIncident)
    → x.higher_value_is_evil ≡ higher
    → AtLeast higher z (if is_worse x y then x else y)
    → AtLeast higher z y × AtLeast higher z x
unfolding is_worse
AtLeast-stays true x y z u h = ((λ e. ground arith, λ e. cc), (λ e. ground arith, λ e. cc))
AtLeast-stays false x y z u h = ((λ e. cc, λ e. ground arith), (λ e. cc, λ e. ground arith))

pick_extreme :
    (b higher : Bool) (x z : SbaIncident) (o : Option SbaIncident)
    → (b ≡ true → x.higher_value_is_evil ≡ higher)
    → ((y : SbaIncident) → pick_if b x o ≡ some y → AtLeast higher z y)
    → ((y : SbaIncident) → o ≡ some y → AtLeast higher z y) × (b ≡ true → AtLeast higher z x)
unfolding pick_if
pick_extreme false higher x z o u h = (h, λ e. cc)
pick_extreme true higher x z none u h = (λ y e. cc, λ e. h x refl)
pick_extreme true higher x z (some y) u h =
    let both = AtLeast-stays higher x y z (u refl) (h (if is_worse x y then x else y) refl) in
    (λ v e. subst (AtLeast higher z) (ap (or_else y) e) both.0, λ e. both.1)

worst_of-AtLeast :
    (t : IncidentType) (higher : Bool) (xs : List SbaIncident) (o : Option SbaIncident)
    (z : SbaIncident)
    → All (Uniform t higher) xs
    → worst_of t xs o ≡ some z
    → ((y : SbaIncident) → o ≡ some y → AtLeast higher z y)
      × All (λ x. same x.kind t ≡ true → AtLeast higher z x) xs
unfolding worst_of
worst_of-AtLeast t higher [] o z u e = (
  λ y i. subst (λ v. AtLeast higher v y) (ap (or_else y) (sym i ∙ e)) (AtLeast-self higher y),
  tt,
)
worst_of-AtLeast t higher (x ∷ xs) o z u e =
    let rest = worst_of-AtLeast t higher xs (pick_if (same x.kind t) x o) z u.1 e in
    let here = pick_extreme (same x.kind t) higher x z o u.0 rest.0 in (here.0, (here.1, rest.1))

-- Whether there is an incident of the type.
abbrev pub any_of : IncidentType → List SbaIncident → Bool
any_of t [] = false
any_of t (x ∷ xs) = same x.kind t || any_of t xs

is_some-pick_if :
    (b : Bool) (x : SbaIncident) (o : Option SbaIncident)
    → is_some (pick_if b x o) ≡ (is_some o || b)
unfolding pick_if
is_some-pick_if b x o = ground arith

is_some-worst_of :
    (t : IncidentType) (xs : List SbaIncident) (o : Option SbaIncident)
    → is_some (worst_of t xs o) ≡ (is_some o || any_of t xs)
unfolding worst_of
is_some-worst_of t [] o = ground arith
is_some-worst_of t (x ∷ xs) o =
    let b = same x.kind t in
    is_some-worst_of t xs (pick_if b x o)
    ∙ ap (λ y. y || any_of t xs) (is_some-pick_if b x o)
    ∙ or_assoc (is_some o) b (any_of t xs)

-- Over the incidents of a caller in any order, where those of the type `t` agree on which values are
-- bad: one is shown for `t` exactly if there is one of the type, and the one that is shown is at
-- least as bad as each of the type.
pub worst_from_worst :
    (t : IncidentType) (higher : Bool) (xs : List SbaIncident)
    → All (Uniform t higher) xs
    → (is_some (Map.find t (worst_from xs [])) ≡ any_of t xs)
      × ((z : SbaIncident)
          → Map.find t (worst_from xs []) ≡ some z
          → All (λ x. same x.kind t ≡ true → AtLeast higher z x) xs)
unfolding Map.find
worst_from_worst t higher xs u = (
  ap is_some (find-worst_from t xs []) ∙ is_some-worst_of t xs none,
  λ z e. (worst_of-AtLeast t higher xs none z u (sym (find-worst_from t xs []) ∙ e)).1,
)
