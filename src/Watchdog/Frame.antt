-- ===== src/Watchdog/Frame.antt =====
-- What a sweep of `CallMap::handleCallTimeouts`, src/container/CallMap.cpp, leaves of the world.
use callx.Container.FriendlyMap.{FriendlyMap}
use callx.Container.FriendlyMap
use callx.Container.Map.{Map}
use callx.Network.SocketAddress.{SocketAddress, socket_key}
use callx.Prelude.{
  ℕ, ◌≡◌, inl, inr, refl, ap, ◌∙◌, Bool, true, false, List, [], ◌∷◌, Key, String, string_key,
  if◌then◌else◌, ltb, arith, Bool-cases, update, ◌&&◌,
}
use callx.Sip.Custody.{custody}
use callx.Sip.Sinks.{
  deactivate_each, check_recording_time, least_inactivity, rtp_inactivity_time, unregister_each,
  unregister_rtp_sinks,
}
use callx.Sip.World.{World, on_sink, on_call}
use callx.Audio.RtpSink.{inactive_for, deactivate}
use callx.Watchdog.Timeouts.{Limits, call_age, expire_if, visit, sweep}

-- What a sweep leaves of the world: who holds the calls, the clock, and each call's id and age.
pub record Frame {A : Type 0} (w w' : World A) : Type 0 where
  pub held : custody w' ≡ custody w
  pub clock : w'.now ≡ w.now
  pub ids : (d : ℕ) → (w'.calls d).dialog.call_id ≡ (w.calls d).dialog.call_id
  pub ages : (d : ℕ) → (w'.calls d).creation_ts_steady ≡ (w.calls d).creation_ts_steady

module _ {A : Type 0} where
  Frame-refl : (w : World A) → Frame w w
  Frame-refl w = record { held = refl; clock = refl; ids = λ d. refl; ages = λ d. refl }

  Frame-trans : (u v w : World A) → Frame u v → Frame v w → Frame u w
  Frame-trans u v w f g = record {
    held = g.held ∙ f.held;
    clock = g.clock ∙ f.clock;
    ids = λ d. g.ids d ∙ f.ids d;
    ages = λ d. g.ages d ∙ f.ages d;
  }

module _ {A : Type 0} ⦃k : Key A⦄ where
  Frame-unregister_each :
      (m : Map (SocketAddress A) ℕ) (w : World A) → Frame w (unregister_each m w)
  unfolding unregister_each
  Frame-unregister_each [] w = Frame-refl w
  Frame-unregister_each ((a, s) ∷ m) w =
      let v = record w { rtp_sink_map = (FriendlyMap.erase a w.rtp_sink_map).0 } in
      Frame-trans w v (unregister_each m v)
        (record { held = refl; clock = refl; ids = λ d. refl; ages = λ d. refl })
        (Frame-unregister_each m v)

  Frame-deactivate_each :
      (m : Map (SocketAddress A) ℕ) (w : World A) → Frame w (deactivate_each m w)
  unfolding deactivate_each
  Frame-deactivate_each [] w = Frame-refl w
  Frame-deactivate_each ((a, s) ∷ m) w =
      let v = on_sink s deactivate w in
      Frame-trans w v (deactivate_each m v)
        (record { held = refl; clock = refl; ids = λ d. refl; ages = λ d. refl })
        (Frame-deactivate_each m v)

  Frame-least_inactivity :
      (m : Map (SocketAddress A) ℕ) (n : ℕ) (w : World A) → Frame w (least_inactivity m n w).0
  unfolding least_inactivity
  Frame-least_inactivity [] n w = Frame-refl w
  Frame-least_inactivity ((a, s) ∷ m) n w =
      let r = inactive_for w.now.steady (w.sinks s) in
      let v = record w { sinks = update w.sinks s r.0 } in
      Frame-trans w v (least_inactivity m (if ltb r.1 n then r.1 else n) v).0
        (record { held = refl; clock = refl; ids = λ d. refl; ages = λ d. refl })
        (Frame-least_inactivity m (if ltb r.1 n then r.1 else n) v)

  Frame-stop_sinks :
      (c : ℕ) (w : World A) → Frame w (on_call c (λ y. record y { sinks_activated = false }) w)
  Frame-stop_sinks c w = record {
    held = refl;
    clock = refl;
    ids = λ d. ground arith;
    ages = λ d. ground arith;
  }

  Frame-check_recording_time : (c n : ℕ) (w : World A) → Frame w (check_recording_time c n w)
  unfolding check_recording_time
  Frame-check_recording_time c n w =
      elim (Bool-cases ((w.calls c).sinks_activated && ltb n (call_age c w))) [
        | inl late ↦
            let v = deactivate_each (w.calls c).local_sinks w in
            rw late (
              Frame-trans w v _ (Frame-deactivate_each (w.calls c).local_sinks w)
                (Frame-stop_sinks c v))
        | inr fine ↦ rw fine (Frame-refl w)
      ]

  Frame-expire_if : (late : Bool) (c : ℕ) (w : World A) → Frame w (expire_if late c w).0
  unfolding expire_if unregister_rtp_sinks
  Frame-expire_if true c w = Frame-unregister_each (w.calls c).local_sinks w
  Frame-expire_if false c w = Frame-refl w

  -- The world between the two tests of a visit.
  abbrev pub asked : Limits → ℕ → World A → World A × ℕ
  asked limits c w = rtp_inactivity_time c (check_recording_time c limits.max_call_recording_time w)

  abbrev pub tested : Limits → ℕ → World A → World A × List ℕ
  tested limits c w =
      expire_if (ltb limits.max_call_rtp_inactivity (asked limits c w).1) c (asked limits c w).0

  Frame-tested : (limits : Limits) (c : ℕ) (w : World A) → Frame w (tested limits c w).0
  unfolding rtp_inactivity_time
  Frame-tested limits c w =
      let v = check_recording_time c limits.max_call_recording_time w in
      Frame-trans w (asked limits c w).0 _
        (Frame-trans w v _ (Frame-check_recording_time c limits.max_call_recording_time w)
          (Frame-least_inactivity (v.calls c).local_sinks (call_age c v) v))
        (Frame-expire_if _ c (asked limits c w).0)

  pub Frame-visit : (limits : Limits) (c : ℕ) (w : World A) → Frame w (visit limits c w).0
  unfolding visit
  Frame-visit limits c w =
      Frame-trans w (tested limits c w).0 _ (Frame-tested limits c w)
        (Frame-expire_if _ c (tested limits c w).0)

  pub Frame-sweep :
      (limits : Limits) (m : Map String ℕ) (w : World A) → Frame w (sweep limits m w).0
  unfolding sweep
  Frame-sweep limits [] w = Frame-refl w
  Frame-sweep limits ((i, c) ∷ m) w =
      Frame-trans w (visit limits c w).0 _ (Frame-visit limits c w)
        (Frame-sweep limits m (visit limits c w).0)

  pub call_age-tested :
      (limits : Limits) (c : ℕ) (w : World A) → call_age c (tested limits c w).0 ≡ call_age c w
  call_age-tested limits c w =
      let frame = Frame-tested limits c w in
      omega (arith, ap (λ n. n.steady) frame.clock, frame.ages c)
