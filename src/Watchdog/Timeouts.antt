-- ===== src/Watchdog/Timeouts.antt =====
-- `CallMap::handleCallTimeouts` of src/container/CallMap.cpp, which `Watchdog::worker` of
-- src/watchdog/Watchdog.cpp calls. The map is locked for the snapshot and again for the commit, and
-- not between: the two are functions of their own.
use callx.Container.FriendlyMap.{FriendlyMap}
use callx.Container.FriendlyMap
use callx.Container.Map.{Map}
use callx.Prelude.{
  ℕ, ◌-◌, ◌/◌, Bool, List, [], ◌∷◌, ◌++◌, none, some, Key, String, string_key, if◌then◌else◌, ltb,
}
use callx.Sip.Sinks.{check_recording_time, rtp_inactivity_time, unregister_rtp_sinks}
use callx.Sip.World.{World, dialog_of}

-- The limits of the configuration, in seconds.
pub record Limits : Type 0 where
  pub max_call_recording_time : ℕ
  pub max_call_rtp_inactivity : ℕ
  pub max_call_age : ℕ

module _ {A : Type 0} ⦃k : Key A⦄ where
  abbrev pub call_age : ℕ → World A → ℕ
  call_age c w = (w.now.steady - (w.calls c).creation_ts_steady) / 1000

  -- A test that a call fails: its sinks are unregistered, and it is put down for the commit.
  unfoldable pub expire_if : Bool → ℕ → World A → World A × List ℕ
  expire_if late c w = if late then (unregister_rtp_sinks c w, c ∷ []) else (w, [])

  -- One call of the snapshot. Where both limits are passed, it is put down twice.
  unfoldable pub visit : Limits → ℕ → World A → World A × List ℕ
  unfolding expire_if
  visit limits c w =
      let (w₁, idle) =
        rtp_inactivity_time c (check_recording_time c limits.max_call_recording_time w) in
      let (w₂, by_idle) = expire_if (ltb limits.max_call_rtp_inactivity idle) c w₁ in
      let (w₃, by_age) = expire_if (ltb limits.max_call_age (call_age c w₂)) c w₂ in
      (w₃, by_idle ++ by_age)

  -- The loop over the snapshot, with the `tempCallQueue`.
  unfoldable pub sweep : Limits → Map String ℕ → World A → World A × List ℕ
  sweep limits [] w = (w, [])
  sweep limits ((i, c) ∷ snapshot) w =
      let (w', late) = visit limits c w in
      let (w'', later) = sweep limits snapshot w' in (w'', late ++ later)

  -- One call of the `tempCallQueue`: queued if its id was still in the map.
  unfoldable pub commit_call : ℕ → World A → World A
  commit_call c w =
      let i = (dialog_of w c).call_id in
      elim (FriendlyMap.find i w.call_map) [
        | none ↦ w
        | some _ ↦ record w {
          call_map = (FriendlyMap.erase i w.call_map).0;
          decode_queue = w.decode_queue ++ c ∷ [];
        }
      ]

  unfoldable pub commit : List ℕ → World A → World A
  commit [] w = w
  commit (c ∷ rest) w = commit rest (commit_call c w)

  -- `handleCallTimeouts`, with nobody between the snapshot and the commit; `System.Interrupted` has the
  -- steps that others can run between.
  unfoldable pub handle_call_timeouts : Limits → World A → World A
  handle_call_timeouts limits w =
      let (w', late) = sweep limits w.call_map.entries w in commit late w'
