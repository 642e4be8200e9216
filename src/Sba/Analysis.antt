-- ===== src/Sba/Analysis.antt =====
-- The six analyses of src/sba/SigBasedAna.cpp on the events of one caller, and the map of incidents.
-- Ratios and averages are `double`s of the source: `percent a b` is floor(a * 1.0 / b * 100 + 0.5),
-- and `seconds a b` is floor(a * 1.0 / b / 1000 + 0.5), both parameters: whatever the precision of the
-- `double`s, and whatever a division by 0 gives. A sum of milliseconds that wrapped can be negative: the
-- average is then below any minimum, and its value, a negative number of the source, is 0 here.
use callx.Container.FriendlyMap.{FriendlyMap}
use callx.Container.FriendlyMap
use callx.Container.Map
use callx.Prelude.{
  ℕ, ◌/◌, Bool, true, false, List, [], ◌∷◌, ◌++◌, Option, none, some, String, string_key,
  if◌then◌else◌, ltb, ◌==◌, ◌||◌, length, ◌▷◌,
}
use callx.Sba.Counts.{
  attempt_ids, concurrent_from, concurrent_start, completion_from, average_from, cumulative_from,
  closed_from, is_negative,
}
use callx.Sba.Types.{SbaEvent, SbaIncident, IncidentType, IncidentMap}

-- The `sba_` entries of the configuration.
pub record SbaConfig : Type 0 where
  pub call_attempts_period : ℕ
  pub call_attempts_max : ℕ
  pub calls_concurrent_period : ℕ
  pub calls_concurrent_max : ℕ
  pub call_completion_period : ℕ
  pub call_completion_min : ℕ
  pub call_completion_attempts_min : ℕ
  pub call_duration_average_period : ℕ
  pub call_duration_average_min : ℕ
  pub call_duration_average_min_completed : ℕ
  pub call_duration_cumulative_period : ℕ
  pub call_duration_cumulative_max : ℕ
  pub calls_closed_by_callee_period : ℕ
  pub calls_closed_by_callee_max : ℕ
  pub calls_closed_by_callee_min_completed : ℕ

-- The double arithmetic of the analyses.
pub record Rounding : Type 0 where
  pub percent : ℕ → ℕ → ℕ
  pub seconds : ℕ → ℕ → ℕ

-- The finding of one analysis: the type, the period, the value, and which way it is bad.
pub record Verdict : Type 0 where
  pub kind : IncidentType
  pub period : ℕ
  pub value : ℕ
  pub higher_value_is_evil : Bool

module _ (c : SbaConfig) (r : Rounding) (now : ℕ) (events : List SbaEvent) where
  open c use {
    call_attempts_period, call_attempts_max, calls_concurrent_period, calls_concurrent_max,
    call_completion_period, call_completion_min, call_completion_attempts_min,
    call_duration_average_period, call_duration_average_min, call_duration_average_min_completed,
    call_duration_cumulative_period, call_duration_cumulative_max, calls_closed_by_callee_period,
    calls_closed_by_callee_max, calls_closed_by_callee_min_completed,
  }

  unfoldable pub analyze_call_attempts : Option Verdict
  analyze_call_attempts =
      let n = length (attempt_ids now call_attempts_period events []) in
      if ltb call_attempts_max n
      then some (record {
        kind = IncidentType.call_attempts;
        period = call_attempts_period;
        value = n;
        higher_value_is_evil = true;
      })
      else none

  unfoldable pub analyze_calls_concurrent : Option Verdict
  analyze_calls_concurrent =
      let n =
        (concurrent_from now calls_concurrent_period events concurrent_start).calls_concurrent in
      if ltb calls_concurrent_max n
      then some (record {
        kind = IncidentType.calls_concurrent;
        period = calls_concurrent_period;
        value = n;
        higher_value_is_evil = true;
      })
      else none

  unfoldable pub analyze_call_completion : Option Verdict
  analyze_call_completion =
      let (attempts, completed) = completion_from now call_completion_period events (0, 0) in
      let ratio = r.percent completed attempts in
      if ltb attempts call_completion_attempts_min
      then none
      else if ltb ratio call_completion_min
      then some (record {
        kind = IncidentType.call_completion;
        period = call_completion_period;
        value = ratio;
        higher_value_is_evil = false;
      })
      else none

  unfoldable pub analyze_call_duration_average : Option Verdict
  analyze_call_duration_average =
      let (calls, total) = average_from now call_duration_average_period events (0, 0) in
      let average = if is_negative total then 0 else r.seconds total calls in
      if ltb calls call_duration_average_min_completed
      then none
      else if is_negative total || ltb average call_duration_average_min
      then some (record {
        kind = IncidentType.call_duration_average;
        period = call_duration_average_period;
        value = average;
        higher_value_is_evil = false;
      })
      else none

  -- floor(duration_cumulative * 1.0 / 1000 / 60) is the whole quotient; a negative one is over no limit.
  unfoldable pub analyze_call_duration_cumulative : Option Verdict
  analyze_call_duration_cumulative =
      let duration_cumulative = cumulative_from now call_duration_cumulative_period events 0 in
      let total = duration_cumulative / 60000 in
      if is_negative duration_cumulative
      then none
      else if ltb call_duration_cumulative_max total
      then some (record {
        kind = IncidentType.call_duration_cumulative;
        period = call_duration_cumulative_period;
        value = total;
        higher_value_is_evil = true;
      })
      else none

  unfoldable pub analyze_calls_closed_by_callee : Option Verdict
  analyze_calls_closed_by_callee =
      let (calls, closed) = closed_from now calls_closed_by_callee_period events (0, 0) in
      let ratio = r.percent closed calls in
      if calls == 0 || ltb calls calls_closed_by_callee_min_completed
      then none
      else if ltb calls_closed_by_callee_max ratio
      then some (record {
        kind = IncidentType.calls_closed_by_callee;
        period = calls_closed_by_callee_period;
        value = ratio;
        higher_value_is_evil = true;
      })
      else none

-- `insertIncident`: a caller's set is made when it is first needed. The incident is a new object, so
-- the set, which compares pointers, always grows.
unfoldable pub insert_incident : String → SbaIncident → IncidentMap → IncidentMap
insert_incident caller x m = elim (FriendlyMap.find caller m) [
  | none ↦ FriendlyMap.insert caller (x ∷ []) m
  | some xs ↦ record m { entries = Map.set caller (xs ++ x ∷ []) m.entries }
]

unfoldable pub report : ℕ → String → Option Verdict → IncidentMap → IncidentMap
unfolding insert_incident
report now caller none m = m
report now caller (some v) m =
    insert_incident caller
      (record {
        timestamp = now;
        kind = v.kind;
        user = caller;
        period = v.period;
        value = v.value;
        higher_value_is_evil = v.higher_value_is_evil;
      })
      m

-- The body of the loop of `analyze`.
unfoldable pub analyze_caller :
    SbaConfig → Rounding → ℕ → String → List SbaEvent → IncidentMap → IncidentMap
unfolding report
analyze_caller c r now caller events m =
    m
    ▷ report now caller (analyze_call_attempts c r now events)
    ▷ report now caller (analyze_calls_concurrent c r now events)
    ▷ report now caller (analyze_call_completion c r now events)
    ▷ report now caller (analyze_call_duration_average c r now events)
    ▷ report now caller (analyze_call_duration_cumulative c r now events)
    ▷ report now caller (analyze_calls_closed_by_callee c r now events)

-- `analyze`, over the entries of the `SbaEventMap`.
unfoldable pub analyze :
    SbaConfig → Rounding → ℕ → Map.Map String (List SbaEvent) → IncidentMap → IncidentMap
analyze c r now [] m = m
analyze c r now ((caller, events) ∷ rest) m =
    analyze c r now rest (analyze_caller c r now caller events m)
