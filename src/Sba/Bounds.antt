-- ===== src/Sba/Bounds.antt =====
-- What the loops of src/sba/SigBasedAna.cpp count: `analyzeCallsConcurrent` and
-- `analyzeCallAttempts`.
use callx.Prelude.{
  ℕ, ◌+◌, ◌≤◌, ◌≡◌, refl, ap, ◌∙◌, Bool, true, false, List, [], ◌∷◌, String, string_key,
  if◌then◌else◌, arith, length, same, same_iff, ◌&&◌, ◌||◌, Bool-cases, inl, inr,
}
use callx.Sba.Counts.{
  Concurrent, concurrent_step, concurrent_from, concurrent_start, contains, add_id, remove_id,
  is_in_period, is_attempt, attempt_ids,
}
use callx.Sba.Types.{EventKind, SbaEvent}

length-add_id : (i : String) (ids : List String) → length (add_id i ids) ≤ length ids + 1
unfolding add_id
length-add_id i ids = ground arith

length-remove_id :
    (i : String) (ids : List String)
    → contains i ids ≡ true
    → length (remove_id i ids) + 1 ≡ length ids
unfolding remove_id
length-remove_id i [] h = cc
length-remove_id i (j ∷ ids) h = ground (arith, length-remove_id i ids)

-- Each id of the set is a call counted, and the counter has been reached.
record Counted (s : Concurrent) : Type 0 where
  ids_counted : length s.ids ≤ s.call_counter
  reached : s.call_counter ≤ s.calls_concurrent

Counted-concurrent_step :
    (k : EventKind) (e : SbaEvent) (s : Concurrent) → Counted s → Counted (concurrent_step k e s)
unfolding concurrent_step
Counted-concurrent_step (EventKind.invite r c a) e s h = record {
  ids_counted = ground (arith, length-add_id e.call_id s.ids, h.ids_counted);
  reached = ground (arith, h.reached);
}
Counted-concurrent_step (EventKind.bye d) e s h = record {
  ids_counted = ground (arith, length-remove_id e.call_id s.ids, h.ids_counted);
  reached = ground (arith, h.reached);
}
Counted-concurrent_step EventKind.cancel e s h = h
Counted-concurrent_step EventKind.options e s h = h

concurrent_step_le :
    (k : EventKind) (e : SbaEvent) (s : Concurrent)
    → (concurrent_step k e s).calls_concurrent ≤ s.calls_concurrent + 1
unfolding concurrent_step
concurrent_step_le (EventKind.invite r c a) e s = ground arith
concurrent_step_le (EventKind.bye d) e s = ground arith
concurrent_step_le EventKind.cancel e s = omega arith
concurrent_step_le EventKind.options e s = omega arith

Counted-concurrent_from :
    (now period : ℕ) (es : List SbaEvent) (s : Concurrent)
    → Counted s
    → Counted (concurrent_from now period es s)
unfolding concurrent_from
Counted-concurrent_from now period [] s h = h
Counted-concurrent_from now period (e ∷ es) s h = elim (Bool-cases (is_in_period now period e)) [
  | inl inside ↦ rw inside (
      Counted-concurrent_from now period es (concurrent_step e.kind e s)
        (Counted-concurrent_step e.kind e s h))
  | inr outside ↦ rw outside (Counted-concurrent_from now period es s h)
]

concurrent_from_le :
    (now period : ℕ) (es : List SbaEvent) (s : Concurrent)
    → (concurrent_from now period es s).calls_concurrent ≤ s.calls_concurrent + length es
unfolding concurrent_from
concurrent_from_le now period [] s = omega arith
concurrent_from_le now period (e ∷ es) s = ground (
  arith,
  concurrent_step_le e.kind e s,
  concurrent_from_le now period es (concurrent_step e.kind e s),
  concurrent_from_le now period es s,
)

-- Over any events of a caller, in any order: the set of ids is never larger than the call counter,
-- which is therefore above 0 when it is decremented, the counter never exceeds the number reported,
-- and that number is at most the number of events.
pub concurrent_from_bounds :
    (now period : ℕ) (es : List SbaEvent)
    → let s = concurrent_from now period es concurrent_start in
      (length s.ids ≤ s.call_counter)
      × (s.call_counter ≤ s.calls_concurrent)
      × (s.calls_concurrent ≤ length es)
concurrent_from_bounds now period es =
    let h =
      Counted-concurrent_from now period es concurrent_start
        (record { ids_counted = omega arith; reached = omega arith }) in
    (h.ids_counted, h.reached, omega (arith, concurrent_from_le now period es concurrent_start))

-- The calls that the caller tried in the period.
abbrev pub attempted : ℕ → ℕ → String → List SbaEvent → Bool
attempted now period i [] = false
attempted now period i (e ∷ es) =
    (same e.call_id i && (is_in_period now period e && is_attempt e.kind e))
    || attempted now period i es

contains-add_id :
    (i j : String) (ids : List String) → contains j (add_id i ids) ≡ (same i j || contains j ids)
unfolding add_id
contains-add_id i j ids = elim (Bool-cases (same i j)) [
  | inl e ↦ ground (arith, same_iff i j)
  | inr n ↦ ground (arith, same_iff i j)
]

contains_kept :
    (i j : String) (b : Bool) (ids : List String)
    → contains j (if b then add_id i ids else ids) ≡ ((same i j && b) || contains j ids)
contains_kept i j true ids = rw (contains-add_id i j ids) (ground arith)
contains_kept i j false ids = ground arith

or_swap : (a b c : Bool) → ((a || b) || c) ≡ (b || (a || c))
or_swap a b c = ground arith

contains-attempt_ids :
    (now period : ℕ) (i : String) (es : List SbaEvent) (ids : List String)
    → contains i (attempt_ids now period es ids) ≡ (contains i ids || attempted now period i es)
unfolding attempt_ids
contains-attempt_ids now period i [] ids = ground arith
contains-attempt_ids now period i (e ∷ es) ids =
    let b = is_in_period now period e && is_attempt e.kind e in
    contains-attempt_ids now period i es (if b then add_id e.call_id ids else ids)
    ∙ ap (λ x. x || attempted now period i es) (contains_kept e.call_id i b ids)
    ∙ or_swap (same e.call_id i && b) (contains i ids) (attempted now period i es)

-- How often an id stands in a list.
abbrev pub times : String → List String → ℕ
times i [] = 0
times i (j ∷ ids) = (if same j i then 1 else 0) + times i ids

times_absent : (i : String) (ids : List String) → contains i ids ≡ false → times i ids ≡ 0
times_absent i [] h = refl
times_absent i (j ∷ ids) h = ground (arith, times_absent i ids)

times-add_id : (i j : String) (ids : List String) → times j ids ≤ 1 → times j (add_id i ids) ≤ 1
unfolding add_id
times-add_id i j ids h = ground (arith, same_iff i j, times_absent i ids)

times-attempt_ids :
    (now period : ℕ) (i : String) (es : List SbaEvent) (ids : List String)
    → times i ids ≤ 1
    → times i (attempt_ids now period es ids) ≤ 1
unfolding attempt_ids
times-attempt_ids now period i [] ids h = h
times-attempt_ids now period i (e ∷ es) ids h =
    elim (Bool-cases (is_in_period now period e && is_attempt e.kind e)) [
      | inl b ↦ rw b (
          times-attempt_ids now period i es (add_id e.call_id ids) (times-add_id e.call_id i ids h))
      | inr b ↦ rw b (times-attempt_ids now period i es ids h)
    ]

-- The list whose length `analyzeCallAttempts` reports holds each call id at most once, and holds
-- exactly those of the initial INVITE events in the period that have a final response.
attempt_ids_distinct :
    (now period : ℕ) (i : String) (es : List SbaEvent)
    → (times i (attempt_ids now period es []) ≤ 1)
      × (contains i (attempt_ids now period es []) ≡ attempted now period i es)
attempt_ids_distinct now period i es =
    (times-attempt_ids now period i es [] (omega arith), contains-attempt_ids now period i es [])
