-- ===== src/Sba/Incidents.antt =====
-- The incidents that a run of `SigBasedAna::analyze`, src/sba/SigBasedAna.cpp, adds.
use callx.Container.FriendlyMap.{FriendlyMap}
use callx.Container.FriendlyMap
use callx.Container.Map.{find-insert, find-set}
use mathlib.Core.List.{append-nil}
use callx.Prelude.{
  ℕ, ◌≡◌, refl, sym, ◌∙◌, ap, List, [], ◌∷◌, ◌++◌, Option, none, some, String, string_key,
  if◌then◌else◌, same, true, false, same_iff, arith, inl, inr, Bool-cases, Bool, ◌▷◌,
}
use callx.Sba.Analysis.{
  SbaConfig, Rounding, Verdict, insert_incident, report, analyze_caller, analyze_call_attempts,
  analyze_calls_concurrent, analyze_call_completion, analyze_call_duration_average,
  analyze_call_duration_cumulative, analyze_calls_closed_by_callee,
}
use callx.Sba.Types.{SbaEvent, SbaIncident, IncidentMap}

abbrev or_empty : Option (List SbaIncident) → List SbaIncident
or_empty none = []
or_empty (some xs) = xs

abbrev pub incidents_of : String → IncidentMap → List SbaIncident
incidents_of i m = or_empty (FriendlyMap.find i m)

abbrev pub incident : ℕ → String → Verdict → SbaIncident
incident now caller v = record {
  timestamp = now;
  kind = v.kind;
  user = caller;
  period = v.period;
  value = v.value;
  higher_value_is_evil = v.higher_value_is_evil;
}

abbrev pub reported : ℕ → String → Option Verdict → List SbaIncident
reported now caller none = []
reported now caller (some v) = incident now caller v ∷ []

-- The verdicts on one caller, in the order of the analyses.
abbrev pub verdicts : SbaConfig → Rounding → ℕ → String → List SbaEvent → List SbaIncident
verdicts c r now caller events =
    reported now caller (analyze_call_attempts c r now events)
    ++ reported now caller (analyze_calls_concurrent c r now events)
    ++ reported now caller (analyze_call_completion c r now events)
    ++ reported now caller (analyze_call_duration_average c r now events)
    ++ reported now caller (analyze_call_duration_cumulative c r now events)
    ++ reported now caller (analyze_calls_closed_by_callee c r now events)

incidents_of-insert_incident :
    (i caller : String) (x : SbaIncident) (m : IncidentMap)
    → incidents_of i (insert_incident caller x m)
      ≡ (if same caller i then incidents_of i m ++ x ∷ [] else incidents_of i m)
unfolding insert_incident FriendlyMap.find FriendlyMap.insert
incidents_of-insert_incident i caller x m = ground (
  arith,
  find-insert caller i (x ∷ []) m.entries,
  find-set caller i (or_empty (FriendlyMap.find caller m) ++ x ∷ []) m.entries,
  same_iff caller i,
)

appended_if :
    (b : Bool) (xs ys : List SbaIncident)
    → (if b then xs ++ ys else xs) ≡ xs ++ (if b then ys else [])
appended_if true xs ys = refl
appended_if false xs ys = sym (append-nil xs)

incidents_of-report :
    (i caller : String) (now : ℕ) (v : Option Verdict) (m : IncidentMap)
    → incidents_of i (report now caller v m)
      ≡ incidents_of i m ++ (if same caller i then reported now caller v else [])
unfolding report
incidents_of-report i caller now none m = elim (Bool-cases (same caller i)) [
  | inl e ↦ rw e (sym (append-nil (incidents_of i m)))
  | inr e ↦ rw e (sym (append-nil (incidents_of i m)))
]
incidents_of-report i caller now (some v) m =
    incidents_of-insert_incident i caller (incident now caller v) m
    ∙ appended_if (same caller i) (incidents_of i m) (incident now caller v ∷ [])

six_appended :
    (a b c d e f g : List SbaIncident)
    → a ++ b ++ c ++ d ++ e ++ f ++ g ≡ a ++ (b ++ c ++ d ++ e ++ f ++ g)
six_appended [] b c d e f g = refl
six_appended (x ∷ a) b c d e f g = ap (λ l. x ∷ l) (six_appended a b c d e f g)

-- Six steps that each append to the incidents of `i`.
reports_appended :
    (i : String) (step : Option Verdict → IncidentMap → IncidentMap)
    (added : Option Verdict → List SbaIncident)
    → ((v : Option Verdict) (m : IncidentMap)
        → incidents_of i (step v m) ≡ incidents_of i m ++ added v)
    → (a b c d e f : Option Verdict) (m : IncidentMap)
    → incidents_of i (m ▷ step a ▷ step b ▷ step c ▷ step d ▷ step e ▷ step f)
      ≡ incidents_of i m ++ (added a ++ added b ++ added c ++ added d ++ added e ++ added f)
reports_appended i step added h a b c d e f m =
    h f (m ▷ step a ▷ step b ▷ step c ▷ step d ▷ step e)
    ∙ ap (λ l. l ++ added f) (h e (m ▷ step a ▷ step b ▷ step c ▷ step d))
    ∙ ap (λ l. l ++ added e ++ added f) (h d (m ▷ step a ▷ step b ▷ step c))
    ∙ ap (λ l. l ++ added d ++ added e ++ added f) (h c (m ▷ step a ▷ step b))
    ∙ ap (λ l. l ++ added c ++ added d ++ added e ++ added f) (h b (step a m))
    ∙ ap (λ l. l ++ added b ++ added c ++ added d ++ added e ++ added f) (h a m)
    ∙ six_appended (incidents_of i m) (added a) (added b) (added c) (added d) (added e) (added f)

-- The loop body for `caller` appends its verdicts to its own incidents, in the order of the analyses
-- and each with the time, the caller, and the type, period and value of the analysis, and leaves the
-- incidents of every other caller alone.
incidents_of-analyze_caller :
    (c : SbaConfig) (r : Rounding) (now : ℕ) (caller : String) (events : List SbaEvent)
    (m : IncidentMap) (i : String)
    → incidents_of i (analyze_caller c r now caller events m)
      ≡ incidents_of i m ++ (if same caller i then verdicts c r now caller events else [])
unfolding analyze_caller
incidents_of-analyze_caller c r now caller events m i = elim (Bool-cases (same caller i)) [
  | inl e ↦ rw e (
      reports_appended i (report now caller) (reported now caller)
        (λ v m'. incidents_of-report i caller now v m' ∙ rw e refl)
        (analyze_call_attempts c r now events) (analyze_calls_concurrent c r now events)
        (analyze_call_completion c r now events) (analyze_call_duration_average c r now events)
        (analyze_call_duration_cumulative c r now events)
        (analyze_calls_closed_by_callee c r now events) m)
  | inr e ↦ rw e (
      reports_appended i (report now caller) (λ v. [])
        (λ v m'. incidents_of-report i caller now v m' ∙ rw e refl)
        (analyze_call_attempts c r now events) (analyze_calls_concurrent c r now events)
        (analyze_call_completion c r now events) (analyze_call_duration_average c r now events)
        (analyze_call_duration_cumulative c r now events)
        (analyze_calls_closed_by_callee c r now events) m)
]
