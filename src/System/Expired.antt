-- ===== src/System/Expired.antt =====
-- What the watchdog does with a call past the age limit, in any world that the two threads reach.
use callx.Container.Entries.{All-find}
use callx.Container.FriendlyMap.{FriendlyMap}
use callx.Container.FriendlyMap
use callx.Container.Map.{count}
use callx.Prelude.{ℕ, ◌<◌, ◌≡◌, sym, ap, ◌∙◌, none, some, Key, String, string_key, arith}
use callx.Sip.Custody.{custody}
use callx.Sip.Ids.{call_id_of}
use callx.Sip.World.{World, Clocks}
use callx.System.Interleaving.{Sound, Consistent-Listed, Sound-step}
use callx.System.Known.{KnownEntry}
use callx.System.Steps.{Step, step}
use callx.Watchdog.Commit.{handle_call_timeouts_old}
use callx.Watchdog.Timeouts.{Limits, call_age, handle_call_timeouts}

module _ {A : Type 0} ⦃k : Key A⦄ where
  -- In a world where each call has one owner at most and the call map is in order (`Sound`, which
  -- every step keeps): a call that stands in the map and is past the age limit at the time of the
  -- timeouts is out of the map after them, and in the decode queue exactly once.
  pub step-timeouts_old :
      (now : Clocks) (limits : Limits) (w : World A) (i : String) (c : ℕ)
      → Sound w
      → FriendlyMap.find i w.call_map ≡ some c
      → limits.max_call_age < call_age c (record w { now = now })
      → let w' = step (Step.timeouts now limits) w in
        (FriendlyMap.find i w'.call_map ≡ none) × (count c w'.decode_queue ≡ 1)
  unfolding FriendlyMap.find step
  step-timeouts_old now limits w i c h e old =
      let v = record w { now = now } in
      let entry =
        All-find (KnownEntry (call_id_of w) (custody w)) i c w.call_map.entries h.listed e in
      let named = ap (λ j. FriendlyMap.find j w.call_map) entry.0.0 ∙ e in
      let moved = handle_call_timeouts_old limits v c (Consistent-Listed v h.listed) named old in
      let sound = Sound-step (Step.timeouts now limits) w h in
      (
        ap (λ j. FriendlyMap.find j (handle_call_timeouts limits v).call_map) (sym entry.0.0)
            ∙ moved.0,
        omega (arith, moved.1, sound.owned.once c),
      )
