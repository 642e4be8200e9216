-- ===== src/System/Wedge.antt =====
-- A call of src/sip/SipProcessor.cpp after the refusal of its re-INVITE.
use callx.Container.Entries.{All-find}
use callx.Sip.Custody.{custody}
use callx.Sip.Ids.{call_id_of}
use callx.System.Interleaving.{Listed, Listed-round, Listed-reset_call, call_id-reset_call}
use callx.System.Known.{KnownEntry}
use callx.Container.FriendlyMap.{FriendlyMap}
use callx.Container.FriendlyMap
use callx.Prelude.{
  subst, ℕ, ◌≡◌, ◌<◌, inl, inr, refl, sym, ap, ◌∙◌, List, [], ◌∷◌, true, Key, string_key, arith,
  Option-cases, some, All, Bool-cases,
}
use callx.Sip.Dialogs.{phase}
use callx.Sip.Ownership.{custody-reset_call}
use callx.Sip.Processor.{
  Arrival, is_initial, create_call, reset_call, handle_in_call, handle_packet, round, run,
}
use callx.Sip.Requests.{handle_invite}
use callx.Sip.Types.{SipPacket}
use callx.Sip.World.{World, update_activity_ts}
use callx.System.Kept.{
  IsQuiet, QuietFor, Kept, Kept-refl, Kept-trans, Kept-flag, Kept-below, Kept-handle_in_call,
  Kept-create_call, Kept-update_activity_ts, phase-reset_call,
}

module _ {A : Type 0} ⦃k : Key A⦄ where
  -- An INVITE while the flag is set changes nothing.
  pub handle_invite_refused :
      (c t : ℕ) (p : SipPacket A) (w : World A)
      → (phase w c).reinvite ≡ true
      → handle_invite c t p w ≡ w
  unfolding handle_invite
  handle_invite_refused c t p w h = ground arith

  -- A call that is found has the packet's id.
  found_id :
      (p : SipPacket A) (w : World A) (c : ℕ)
      → Listed w
      → FriendlyMap.find p.call_id w.call_map ≡ some c
      → call_id_of w c ≡ p.call_id
  unfolding FriendlyMap.find
  found_id p w c h e =
      let entry = All-find (KnownEntry (call_id_of w) (custody w)) p.call_id c _ h e in entry.0.0

  opened_new :
      (p : SipPacket A) (w : World A) (d : ℕ)
      → (phase w d).reinvite ≡ true
      → d < w.next_call
      → Kept w (handle_in_call w.next_call p (create_call p w)) d
  opened_new p w d r l =
      let v = create_call p w in
      let opened = Kept-create_call p w d l in
      Kept-trans w v _ d opened (
        Kept-handle_in_call w.next_call d p v (λ e. absurd (omega arith)) (Kept-flag w v d opened r)
          (Kept-below w v d opened))

  continued :
      (c d : ℕ) (p : SipPacket A) (w : World A)
      → (d ≡ c → IsQuiet p)
      → (phase w d).reinvite ≡ true
      → d < w.next_call
      → Kept w (handle_in_call c p (update_activity_ts c w)) d
  continued c d p w q r l =
      let v = update_activity_ts c w in
      let touched = Kept-update_activity_ts c w d l in
      Kept-trans w v _ d touched
        (Kept-handle_in_call c d p v q (Kept-flag w v d touched r) (Kept-below w v d touched))

  Kept-handle_packet :
      (p : SipPacket A) (w : World A) (d : ℕ)
      → Listed w
      → (p.call_id ≡ call_id_of w d → IsQuiet p)
      → (phase w d).reinvite ≡ true
      → d < w.next_call
      → Kept w (handle_packet p w) d
  unfolding handle_packet Kept
  Kept-handle_packet p w d h q r l = elim (Option-cases (FriendlyMap.find p.call_id w.call_map)) [
    | inl e ↦
        rw (e, handle_packet)
          (elim (Bool-cases (is_initial p p.message_type)) [
            | inl fresh ↦ rw fresh (opened_new p w d r l)
            | inr other ↦ rw other (Kept-refl w d l)
          ])
    | inr (c, e) ↦
        rw (e, handle_packet)
          (continued c d p (record w { curr_call = some c })
            (λ s. q (sym (found_id p w c h e) ∙ ap (call_id_of w) (sym s))) r l)
  ]

  Kept-reset_call : (w : World A) (d : ℕ) → d < w.next_call → Kept w (reset_call w) d
  unfolding Kept
  Kept-reset_call w d l = (
    phase-reset_call w d,
    rw (ap (λ v. v.next_call) (custody-reset_call w)) l,
    call_id-reset_call w d,
  )

  Kept-round :
      (a : Arrival A) (w : World A) (d : ℕ)
      → Listed w
      → QuietFor (call_id_of w d) a
      → (phase w d).reinvite ≡ true
      → d < w.next_call
      → Kept w (round a w) d
  unfolding round Kept
  Kept-round a w d h q r l =
      let v = record w { now = a.at } in
      let reset = Kept-reset_call v d l in
      elim (Option-cases a.parsed) [
        | inl e ↦ rw (e, round) reset
        | inr (p, e) ↦
            rw (e, round)
              (Kept-trans v (reset_call v) (handle_packet p (reset_call v)) d reset (
                Kept-handle_packet p (reset_call v) d (Listed-reset_call v h)
                  (λ i. q p e (i ∙ call_id-reset_call v d)) (Kept-flag v (reset_call v) d reset r)
                  (Kept-below v (reset_call v) d reset)))
      ]

  run_stuck :
      (arrivals : List (Arrival A)) (w : World A) (d : ℕ)
      → Listed w
      → All (QuietFor (call_id_of w d)) arrivals
      → (phase w d).reinvite ≡ true
      → d < w.next_call
      → phase (run arrivals w) d ≡ phase w d
  unfolding run Kept
  run_stuck [] w d h q r l = refl
  run_stuck (a ∷ rest) w d h q r l =
      let kept = Kept-round a w d h q.0 r l in
      run_stuck rest (round a w) d (Listed-round a w h)
        (subst (λ i. All (QuietFor i) rest) (sym kept.2) q.1) (ap (λ x. x.reinvite) kept.0 ∙ r)
        kept.1
      ∙ kept.0

  -- Where the call map is in order and a given-out call's re-INVITE flag is set, and no packet with
  -- the call's id is a provisional response or a success (the refusal of the re-INVITE and its ACK
  -- may arrive, and any packet of another call), the flag and the dialog state stay as they are, and
  -- the handler of every later INVITE in the call changes nothing.
  pub refused_reinvite_blocks :
      (arrivals : List (Arrival A)) (w : World A) (c : ℕ)
      → Listed w
      → All (QuietFor (call_id_of w c)) arrivals
      → (phase w c).reinvite ≡ true
      → c < w.next_call
      → (phase (run arrivals w) c ≡ phase w c)
        × ((t : ℕ) (p : SipPacket A) → handle_invite c t p (run arrivals w) ≡ run arrivals w)
  refused_reinvite_blocks arrivals w c h q r l =
      let same_phase = run_stuck arrivals w c h q r l in
      (same_phase, λ t p. handle_invite_refused c t p _ (ap (λ x. x.reinvite) same_phase ∙ r))
