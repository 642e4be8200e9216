-- ===== src/System/Interleaving.antt =====
-- The SIP processor and the watchdog in any order: who holds the calls, and under which id.
use callx.Container.FriendlyMap.{FriendlyMap}
use callx.Container.FriendlyMap
use callx.Prelude.{
  ℕ, ◌<◌, ◌≡◌, refl, sym, ap, List, [], ◌∷◌, Option, none, some, Key, string_key, arith, All-mono,
  inl, inr, subst, Option-cases, Bool-cases, true, false,
}
use callx.Sip.Custody.{custody}
use callx.Sip.Ids.{call_id_of, call_id-unregister_rtp_sinks, call_id-update_activity_ts}
use callx.Sip.IdSteps.{call_id-handle_in_call}
use callx.Sip.Moves.{Moved}
use callx.Sip.Ownership.{Owned, Moved-handle_in_call, custody-reset_call, Owned-round}
use callx.Sip.Processor.{
  Arrival, create_call, reset_call, handle_in_call, handle_packet, handle_parsed, is_initial, round,
}
use callx.Sip.Types.{SipPacket}
use callx.Sip.World.{World, update_activity_ts, new_call}
use callx.System.Known.{KnownEntry, Known, Known-ids, Known-Moved, Known-added}
use callx.System.Steps.{Step, step, run_system}
use callx.Watchdog.Commit.{handle_call_timeouts-Owned, dialog-commit_call}
use callx.Watchdog.Expiry.{Consistent}
use callx.Watchdog.Frame.{Frame-sweep}
use callx.Watchdog.Timeouts.{Limits, handle_call_timeouts, sweep, commit, commit_call}

module _ {A : Type 0} ⦃k : Key A⦄ where
  -- Every entry of the call map stands under the id of its call, and is found.
  abbrev pub Listed : World A → Type 0
  Listed w = Known (call_id_of w) (custody w)

  pub record Sound (w : World A) : Type 0 where
    pub owned : Owned (custody w)
    pub listed : Listed w

  Listed-handle_in_call :
      (c : ℕ) (p : SipPacket A) (w : World A) → Listed w → Listed (handle_in_call c p w)
  Listed-handle_in_call c p w h =
      Known-ids (call_id_of w) _ (custody (handle_in_call c p w)) (call_id-handle_in_call c p w)
        (Known-Moved (call_id_of w) c p.call_id (custody w) _ (Moved-handle_in_call c p w) h)

  pub call_id-create_call_old :
      (p : SipPacket A) (w : World A) (d : ℕ)
      → d < w.next_call
      → call_id_of (create_call p w) d ≡ call_id_of w d
  unfolding create_call
  call_id-create_call_old p w d h = ground arith

  call_id-create_call_new :
      (p : SipPacket A) (w : World A) → call_id_of (create_call p w) w.next_call ≡ p.call_id
  unfolding create_call new_call
  call_id-create_call_new p w = ground arith

  Listed-create_call :
      (p : SipPacket A) (w : World A)
      → FriendlyMap.find p.call_id w.call_map ≡ none
      → Listed w
      → Listed (create_call p w)
  unfolding create_call
  Listed-create_call p w e h =
      Known-added (call_id_of w) (call_id_of (create_call p w)) (custody w) p.call_id
        (call_id-create_call_old p w) (call_id-create_call_new p w) e h

  Listed-handle_packet : (p : SipPacket A) (w : World A) → Listed w → Listed (handle_packet p w)
  unfolding handle_packet update_activity_ts
  Listed-handle_packet p w h = elim (Option-cases (FriendlyMap.find p.call_id w.call_map)) [
    | inl e ↦ elim (Bool-cases (is_initial p p.message_type)) [
      | inl fresh ↦
          subst Listed (sym (opens e fresh))
            (Listed-handle_in_call w.next_call p (create_call p w) (Listed-create_call p w e h))
      | inr other ↦ subst Listed (sym (discards e other)) h
    ]
    | inr (c, e) ↦
        let v = record w { curr_call = some c } in
        subst Listed (sym (continues c e)) (
          Listed-handle_in_call c p (update_activity_ts c v)
            (Known-ids (call_id_of w) _ (custody w) (call_id-update_activity_ts c v) h))
  ]
    where
      opens :
          FriendlyMap.find p.call_id w.call_map ≡ none
          → is_initial p p.message_type ≡ true
          → handle_packet p w ≡ handle_in_call w.next_call p (create_call p w)
      opens e f = rw (e, handle_packet) (rw f refl)

      discards :
          FriendlyMap.find p.call_id w.call_map ≡ none
          → is_initial p p.message_type ≡ false
          → handle_packet p w ≡ w
      discards e f = rw (e, handle_packet) (rw f refl)

      continues :
          (c : ℕ)
          → FriendlyMap.find p.call_id w.call_map ≡ some c
          → handle_packet p w
            ≡ handle_in_call c p (update_activity_ts c (record w { curr_call = some c }))
      continues c e = rw (e, handle_packet) refl

  pub call_id-reset_call : (w : World A) (d : ℕ) → call_id_of (reset_call w) d ≡ call_id_of w d
  unfolding reset_call
  call_id-reset_call w d = grind (arith, call_id-unregister_rtp_sinks)

  pub Listed-reset_call : (w : World A) → Listed w → Listed (reset_call w)
  Listed-reset_call w h =
      Known-ids (call_id_of w) _ (custody (reset_call w)) (call_id-reset_call w)
        (subst (Known (call_id_of w)) (sym (custody-reset_call w)) h)

  Listed-handle_parsed :
      (q : Option (SipPacket A)) (w : World A) → Listed w → Listed (handle_parsed q w)
  Listed-handle_parsed none w h = h
  Listed-handle_parsed (some p) w h = Listed-handle_packet p w h

  pub Listed-round : (a : Arrival A) (w : World A) → Listed w → Listed (round a w)
  unfolding round
  Listed-round a w h =
      Listed-handle_parsed a.parsed _ (Listed-reset_call (record w { now = a.at }) h)

  Moved-commit_call :
      (c : ℕ) (w : World A) → Moved c (call_id_of w c) (custody w) (custody (commit_call c w))
  unfolding commit_call
  Moved-commit_call c w = ground arith

  pub Listed-commit : (late : List ℕ) (w : World A) → Listed w → Listed (commit late w)
  unfolding commit
  Listed-commit [] w h = h
  Listed-commit (c ∷ late) w h = Listed-commit late (commit_call c w) (
      Known-ids (call_id_of w) _ (custody (commit_call c w))
        (λ d. ap (λ x. x.call_id) (dialog-commit_call c d w))
        (Known-Moved (call_id_of w) c (call_id_of w c) (custody w) _ (Moved-commit_call c w) h))

  Listed-handle_call_timeouts :
      (limits : Limits) (w : World A) → Listed w → Listed (handle_call_timeouts limits w)
  unfolding handle_call_timeouts
  Listed-handle_call_timeouts limits w h =
      let frame = Frame-sweep limits w.call_map.entries w in
      let v = (sweep limits w.call_map.entries w).0 in
      Listed-commit (sweep limits w.call_map.entries w).1 v (
        Known-ids (call_id_of w) _ (custody v) frame.ids
          (subst (Known (call_id_of w)) (sym frame.held) h))

  pub Consistent-Listed : (w : World A) → Listed w → Consistent w w.call_map.entries
  Consistent-Listed w h =
      All-mono (KnownEntry (call_id_of w) (custody w)) _ w.call_map.entries (λ e x. x.0) h

  pub Sound-step : (s : Step A) (w : World A) → Sound w → Sound (step s w)
  unfolding step
  Sound-step (Step.packet a) w h = record {
    owned = Owned-round a w h.owned;
    listed = Listed-round a w h.listed;
  }
  Sound-step (Step.timeouts now limits) w h =
      let v = record w { now = now } in
      record {
        owned = handle_call_timeouts-Owned limits v (Consistent-Listed v h.listed) h.owned;
        listed = Listed-handle_call_timeouts limits v h.listed;
      }

  -- Where each call has one owner at most, and every entry of the call map stands under the id of its
  -- call, is found there, and refers to a call given out, this is so after any sequence of packets
  -- and timeouts, in any order, each a whole round that nobody disturbs.
  pub run_system-Sound :
      (steps : List (Step A)) (w : World A) → Sound w → Sound (run_system steps w)
  unfolding run_system
  run_system-Sound [] w h = h
  run_system-Sound (s ∷ rest) w h = run_system-Sound rest (step s w) (Sound-step s w h)
