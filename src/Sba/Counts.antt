-- ===== src/Sba/Counts.antt =====
-- The loops of src/sba/SigBasedAna.cpp over a caller's events. Counters of events are `int`s of the
-- source, left unbounded; the sums of milliseconds are `int`s that wrap, kept as their 32 bits. Call ids are kept in a list where the source has an `unordered_set`.
use callx.Prelude.{
  ℕ, ◌+◌, ◌-◌, ◌/◌, ◌%◌, ◌^◌, Bool, true, false, List, [], ◌∷◌, String, string_key, if◌then◌else◌,
  ltb, leb, ◌==◌, ◌&&◌, same, not,
}
use callx.Sba.Types.{EventKind, SbaEvent}

-- `isInPeriod`, at the time `now` of the analysis: less than `period` whole minutes ago, and at least
-- one whole second. An event of the future is less than one second ago.
unfoldable pub is_in_period : ℕ → ℕ → SbaEvent → Bool
is_in_period now period e =
    ltb ((now - e.timestamp) / 60000) period && ltb 0 ((now - e.timestamp) / 1000)

abbrev pub contains : String → List String → Bool
contains i [] = false
contains i (j ∷ ids) = if same j i then true else contains i ids

-- `callIdSet.insert`
unfoldable pub add_id : String → List String → List String
add_id i ids = if contains i ids then ids else i ∷ ids

-- `callIdSet.erase`
unfoldable pub remove_id : String → List String → List String
remove_id i [] = []
remove_id i (j ∷ ids) = if same j i then ids else j ∷ remove_id i ids

-- `rc_UNDEFINED`, `rc_SUCCESS`, `rc_REDIRECTION`
abbrev pub rc_undefined : ℕ
rc_undefined = 0

abbrev pub rc_success : ℕ
rc_success = 200

abbrev pub rc_redirection : ℕ
rc_redirection = 300

abbrev pub has_response : SbaEvent → Bool
has_response e = not (e.final_code == rc_undefined)

-- An initial INVITE with a final response, `analyzeCallAttempts`.
abbrev pub is_attempt : EventKind → SbaEvent → Bool
is_attempt (EventKind.invite reinvite cancel ack) e = not reinvite && has_response e
is_attempt _ e = false

unfoldable pub attempt_ids : ℕ → ℕ → List SbaEvent → List String → List String
unfolding is_in_period add_id
attempt_ids now period [] ids = ids
attempt_ids now period (e ∷ es) ids =
    attempt_ids now period es
      (if is_in_period now period e && is_attempt e.kind e then add_id e.call_id ids else ids)

-- The variables of the loop of `analyzeCallsConcurrent`.
pub record Concurrent : Type 0 where
  pub call_counter : ℕ
  pub calls_concurrent : ℕ
  pub ids : List String

-- An acknowledged initial INVITE with a success.
abbrev pub is_established : Bool → Bool → SbaEvent → Bool
is_established reinvite ack e =
    not reinvite && (ack && (leb rc_success e.final_code && ltb e.final_code rc_redirection))

unfoldable pub concurrent_step : EventKind → SbaEvent → Concurrent → Concurrent
unfolding add_id remove_id
concurrent_step (EventKind.invite reinvite cancel ack) e s =
    if is_established reinvite ack e
    then record {
      call_counter = s.call_counter + 1;
      calls_concurrent =
          if ltb s.calls_concurrent (s.call_counter + 1)
          then s.calls_concurrent + 1
          else s.calls_concurrent;
      ids = add_id e.call_id s.ids;
    }
    else s
concurrent_step (EventKind.bye duration) e s =
    if not (has_response e)
    then s
    else if contains e.call_id s.ids
    then record s { call_counter = s.call_counter - 1; ids = remove_id e.call_id s.ids }
    else record s { calls_concurrent = s.calls_concurrent + 1 }
concurrent_step EventKind.cancel e s = s
concurrent_step EventKind.options e s = s

unfoldable pub concurrent_from : ℕ → ℕ → List SbaEvent → Concurrent → Concurrent
concurrent_from now period [] s = s
concurrent_from now period (e ∷ es) s =
    concurrent_from now period es
      (if is_in_period now period e then concurrent_step e.kind e s else s)

abbrev pub concurrent_start : Concurrent
concurrent_start = record { call_counter = 0; calls_concurrent = 0; ids = [] }

-- `analyzeCallCompletion`: attempts and completed calls.
abbrev pub completion_step : EventKind → SbaEvent → ℕ × ℕ → ℕ × ℕ
completion_step (EventKind.invite reinvite cancel ack) e s = if reinvite then s else (
  (if has_response e then s.0 else s.0 + 1),
  (if ack && e.final_code == rc_success then s.1 + 1 else s.1),
)
completion_step _ e s = s

unfoldable pub completion_from : ℕ → ℕ → List SbaEvent → ℕ × ℕ → ℕ × ℕ
completion_from now period [] s = s
completion_from now period (e ∷ es) s =
    completion_from now period es
      (if is_in_period now period e then completion_step e.kind e s else s)

-- `duration_cumulative += ...` on the 32 bits of an `int`
unfoldable pub add_int : ℕ → ℕ → ℕ
add_int n duration = (n + duration) % 2 ^ 32

abbrev pub is_negative : ℕ → Bool
is_negative n = leb (2 ^ 31) n

-- `analyzeCallDurationAverage`: the answered BYE events and the sum of their durations, in ms.
abbrev pub average_step : EventKind → SbaEvent → ℕ × ℕ → ℕ × ℕ
average_step (EventKind.bye duration) e s =
    if has_response e then (s.0 + 1, add_int s.1 duration) else s
average_step _ e s = s

unfoldable pub average_from : ℕ → ℕ → List SbaEvent → ℕ × ℕ → ℕ × ℕ
average_from now period [] s = s
average_from now period (e ∷ es) s =
    average_from now period es (if is_in_period now period e then average_step e.kind e s else s)

-- `analyzeCallDurationCumulative`: the sum over the BYE events without a response, in ms.
abbrev pub cumulative_step : EventKind → SbaEvent → ℕ → ℕ
cumulative_step (EventKind.bye duration) e n = if has_response e then n else add_int n duration
cumulative_step _ e n = n

unfoldable pub cumulative_from : ℕ → ℕ → List SbaEvent → ℕ → ℕ
cumulative_from now period [] n = n
cumulative_from now period (e ∷ es) n =
    cumulative_from now period es
      (if is_in_period now period e then cumulative_step e.kind e n else n)

-- `analyzeCallsClosedByCallee`: the BYE events without a response, and those of the callee.
abbrev pub closed_step : EventKind → SbaEvent → ℕ × ℕ → ℕ × ℕ
closed_step (EventKind.bye duration) e s =
    if has_response e
    then s
    else (s.0 + 1, (if same e.caller.tag e.initiator.tag then s.1 else s.1 + 1))
closed_step _ e s = s

unfoldable pub closed_from : ℕ → ℕ → List SbaEvent → ℕ × ℕ → ℕ × ℕ
closed_from now period [] s = s
closed_from now period (e ∷ es) s =
    closed_from now period es (if is_in_period now period e then closed_step e.kind e s else s)
