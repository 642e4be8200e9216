-- ===== src/System/Interrupted.antt =====
-- `CallMap::handleCallTimeouts` of src/container/CallMap.cpp as the steps that other threads can run between:
-- the snapshot and the commit, which lock the map, and the visit of one call, which locks that call.
-- A round of the SIP processor (src/sip/SipProcessor.cpp) is one step; the destructions at its start are
-- in `reset_call`.
use callx.Container.Map.{Map}
use callx.Prelude.{ℕ, List, [], ◌∷◌, ◌++◌, Key, String}
use callx.Sip.Processor.{Arrival, round}
use callx.Sip.World.{World, Clocks}
use callx.System.Known.{Known}
use callx.Watchdog.Timeouts.{Limits, visit, commit}

-- Where the watchdog stands: between its rounds, or with what is left of `mapSnapShot` and with the
-- `tempCallQueue`.
pub data Watch : Type 0 where
  between : Watch
  visiting : Limits → Map String ℕ → List ℕ → Watch

pub data Event (A : Type 0) : Type 0 where
  packet : Arrival A → Event A
  snapshot : Limits → Event A
  visit_next : Clocks → Event A
  write : Event A

module _ {A : Type 0} ⦃k : Key A⦄ where
  abbrev visit_first : Watch → World A → World A × Watch
  visit_first between w = (w, between)
  visit_first (visiting limits [] late) w = (w, visiting limits [] late)
  visit_first (visiting limits ((i, c) ∷ rest) late) w =
      let (w', more) = visit limits c w in (w', visiting limits rest (late ++ more))

  abbrev write_late : Watch → World A → World A × Watch
  write_late between w = (w, between)
  write_late (visiting limits [] late) w = (commit late w, between)
  write_late (visiting limits (e ∷ rest) late) w = (w, visiting limits (e ∷ rest) late)

  abbrev begin : Limits → Watch → World A → World A × Watch
  begin limits between w = (w, visiting limits w.call_map.entries [])
  begin limits (visiting l rest late) w = (w, visiting l rest late)

  -- An event that does not fit where the watchdog stands does nothing.
  unfoldable pub happen : Event A → World A → Watch → World A × Watch
  happen (packet a) w at = (round a w, at)
  happen (snapshot limits) w at = begin limits at w
  happen (visit_next now) w at = visit_first at (record w { now = now })
  happen write w at = write_late at w

  unfoldable pub happen_all : List (Event A) → World A → Watch → World A × Watch
  happen_all [] w at = (w, at)
  happen_all (e ∷ events) w at = let (w', at') = happen e w at in happen_all events w' at'

  -- The events of a round of the watchdog from its snapshot on: a visit for each entry, and the commit.
  unfoldable pub visits : Clocks → Map String ℕ → List (Event A)
  visits now [] = write ∷ []
  visits now (e ∷ rest) = visit_next now ∷ visits now rest
