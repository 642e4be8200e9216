-- ===== src/Sba/Division.antt =====
-- The divisions in src/sba/SigBasedAna.cpp.
use callx.Prelude.{ℕ, ◌≤◌, ◌<◌, ◌≡◌, refl, List, String, arith}
use callx.Sba.Analysis.{
  SbaConfig, Rounding, analyze_call_attempts, analyze_calls_concurrent, analyze_call_completion,
  analyze_call_duration_average, analyze_call_duration_cumulative, analyze_calls_closed_by_callee,
}
use callx.Sba.Counts.{completion_from, average_from, closed_from}
use callx.Sba.Incidents.{verdicts}
use callx.Sba.Types.{SbaEvent}

-- Two ways of rounding that differ at most at a division by 0.
pub record AgreeOffZero (r r' : Rounding) : Type 0 where
  pub percent : (a b : ℕ) → 0 < b → r.percent a b ≡ r'.percent a b
  pub seconds : (a b : ℕ) → 0 < b → r.seconds a b ≡ r'.seconds a b

module _ (c : SbaConfig) (r r' : Rounding) (h : AgreeOffZero r r') (now : ℕ)
    (events : List SbaEvent) where
  completion_same :
      1 ≤ c.call_completion_attempts_min
      → analyze_call_completion c r now events ≡ analyze_call_completion c r' now events
  unfolding analyze_call_completion
  completion_same l =
      let counts = completion_from now c.call_completion_period events (0, 0) in
      ground (arith, h.percent counts.1 counts.0)

  average_same :
      1 ≤ c.call_duration_average_min_completed
      → analyze_call_duration_average c r now events ≡ analyze_call_duration_average c r' now events
  unfolding analyze_call_duration_average
  average_same l =
      let counts = average_from now c.call_duration_average_period events (0, 0) in
      ground (arith, h.seconds counts.1 counts.0)

  closed_same :
      analyze_calls_closed_by_callee c r now events ≡ analyze_calls_closed_by_callee c r' now events
  unfolding analyze_calls_closed_by_callee
  closed_same =
      let counts = closed_from now c.calls_closed_by_callee_period events (0, 0) in
      ground (arith, h.percent counts.1 counts.0)

-- Where the configured minimum of attempts and that of completed calls (for the average) are at
-- least 1, no verdict on a caller depends on the result of a division by 0.
pub verdicts_no_division_by_zero :
    (c : SbaConfig) (r r' : Rounding) (now : ℕ) (caller : String) (events : List SbaEvent)
    → AgreeOffZero r r'
    → 1 ≤ c.call_completion_attempts_min
    → 1 ≤ c.call_duration_average_min_completed
    → verdicts c r now caller events ≡ verdicts c r' now caller events
unfolding analyze_call_attempts analyze_calls_concurrent analyze_call_duration_cumulative
verdicts_no_division_by_zero c r r' now caller events h l m =
    rw
      (
        completion_same c r r' h now events l,
        average_same c r r' h now events m,
        closed_same c r r' h now events,
      )
      refl
