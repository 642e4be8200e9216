-- ===== src/System/Steps.antt =====
-- The SIP processor (src/sip/SipProcessor.cpp) and the watchdog (src/watchdog/Watchdog.cpp) on one
-- world, in any order. A step is a whole round of one of them, undisturbed: `Interrupted` has a round of
-- the watchdog with rounds of the SIP processor in it.
use callx.Prelude.{List, [], ◌∷◌, Key}
use callx.Sip.Processor.{Arrival, round}
use callx.Sip.World.{World, Clocks}
use callx.Watchdog.Timeouts.{Limits, handle_call_timeouts}

pub data Step (A : Type 0) : Type 0 where
  packet : Arrival A → Step A
  timeouts : Clocks → Limits → Step A

module _ {A : Type 0} ⦃k : Key A⦄ where
  unfoldable pub step : Step A → World A → World A
  step (Step.packet a) w = round a w
  step (Step.timeouts now limits) w = handle_call_timeouts limits (record w { now = now })

  unfoldable pub run_system : List (Step A) → World A → World A
  run_system [] w = w
  run_system (s ∷ rest) w = run_system rest (step s w)
