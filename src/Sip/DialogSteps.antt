-- ===== src/Sip/DialogSteps.antt =====
-- The dialog state and the re-INVITE flag, through the handlers of src/sip/SipProcessor.cpp.
use callx.Prelude.{
  ℕ, ◌≡◌, ◌⊎◌, Bool, true, false, Key, String, string_key, arith, same, if◌then◌else◌, ◌==◌, ◌||◌,
}
use callx.Sip.Dialogs.{Phase, phase, phase_laws, phase-unregister_rtp_sinks}
use callx.Sip.Requests.{
  is_terminating, is_pending, is_dialog_confirmed, open_dialog, handle_invite, handle_bye,
  handle_options, handle_cancel, drop_refused_call, handle_ack_on_non_success,
  handle_ack_on_success,
}
use callx.Sip.Responses.{
  handle_provisional_on_invite, handle_success_on_invite, handle_non_success_on_invite,
  prepare_call_to_decode, finish_transaction, handle_response_on_bye, handle_response_on_options,
  handle_response_on_cancel,
}
use callx.Sip.Types.{SipPacket, DialogState}
use callx.Sip.World.{World, set_dialog_state, set_reinvite_flag}

abbrev pub at : DialogState → Bool → Phase
at s b = record { state = s; reinvite = b }

-- What an INVITE does to its call's dialog.
abbrev pub invited : Phase → Phase
invited v =
    if is_terminating v.state || (is_pending v.state || v.reinvite)
    then v
    else at DialogState.init (is_dialog_confirmed v.state)

module _ {A : Type 0} ⦃k : Key A⦄ where
  phase-open_dialog :
      (c : ℕ) (p : SipPacket A) (w : World A) (d : ℕ)
      → phase (open_dialog c p w) d ≡ (
          if d == c
          then if is_dialog_confirmed (phase w c).state
            then record (phase w c) { reinvite = true }
            else record (phase w c) { state = DialogState.init }
          else phase w d)
  unfolding open_dialog set_dialog_state set_reinvite_flag
  phase-open_dialog c p w d = ground arith

  pub phase-handle_invite :
      (c t : ℕ) (p : SipPacket A) (w : World A) (d : ℕ)
      → phase (handle_invite c t p w) d ≡ (if d == c then invited (phase w c) else phase w d)
  unfolding handle_invite
  phase-handle_invite c t p w d = grind (arith, phase_laws, phase-open_dialog)

  pub phase-handle_cancel :
      (c t : ℕ) (w : World A) (d : ℕ) → phase (handle_cancel c t w) d ≡ phase w d
  unfolding handle_cancel
  phase-handle_cancel c t w d = grind (arith, phase_laws)

  pub phase-handle_ack_on_success :
      (c t : ℕ) (p : SipPacket A) (w : World A) (d : ℕ)
      → phase (handle_ack_on_success c t p w) d ≡ phase w d
  unfolding handle_ack_on_success
  phase-handle_ack_on_success c t p w d = grind (arith, phase_laws)

  pub phase-handle_bye : (c t : ℕ) (w : World A) (d : ℕ) → phase (handle_bye c t w) d ≡ phase w d
  unfolding handle_bye
  phase-handle_bye c t w d = simp phase_laws

  pub phase-handle_options :
      (c t : ℕ) (w : World A) (d : ℕ) → phase (handle_options c t w) d ≡ phase w d
  unfolding handle_options
  phase-handle_options c t w d = simp phase_laws

  phase-drop_refused_call :
      (c : ℕ) (p : SipPacket A) (w : World A) (d : ℕ)
      → phase (drop_refused_call c p w) d ≡ (
          if d == c
          then if (phase w c).reinvite
            then phase w c
            else record (phase w c) { state = DialogState.terminating }
          else phase w d)
  unfolding drop_refused_call set_dialog_state
  phase-drop_refused_call c p w d = ground arith

  -- The ACK of a refusal ends the dialog, unless it was a re-INVITE that was refused.
  pub phase-handle_ack_on_non_success :
      (c t : ℕ) (p : SipPacket A) (w : World A) (d : ℕ)
      → (phase (handle_ack_on_non_success c t p w) d ≡ phase w d)
        ⊎ ((d ≡ c)
            × ((phase w c).reinvite ≡ false)
            × (phase (handle_ack_on_non_success c t p w) d
                ≡ record (phase w c) { state = DialogState.terminating }))
  unfolding handle_ack_on_non_success
  phase-handle_ack_on_non_success c t p w d = grind (arith, phase_laws, phase-drop_refused_call)

  phase-finish_transaction :
      (c t : ℕ) (p : SipPacket A) (w : World A) (d : ℕ)
      → phase (finish_transaction c t p w) d ≡ phase w d
  unfolding finish_transaction
  phase-finish_transaction c t p w d = simp phase_laws

  phase-prepare_call_to_decode :
      (c : ℕ) (i : String) (w : World A) (d : ℕ)
      → phase (prepare_call_to_decode c i w) d ≡ phase w d
  unfolding prepare_call_to_decode
  phase-prepare_call_to_decode c i w d = phase-unregister_rtp_sinks c w d

  ruleset finish_laws = (phase-finish_transaction, phase-prepare_call_to_decode)

  pub phase-handle_response_on_bye :
      (c t : ℕ) (p : SipPacket A) (w : World A) (d : ℕ)
      → phase (handle_response_on_bye c t p w) d ≡ phase w d
  unfolding handle_response_on_bye
  phase-handle_response_on_bye c t p w d = grind (arith, finish_laws)

  pub phase-handle_response_on_options :
      (c t : ℕ) (p : SipPacket A) (w : World A) (d : ℕ)
      → phase (handle_response_on_options c t p w) d ≡ phase w d
  unfolding handle_response_on_options
  phase-handle_response_on_options c t p w d = grind (arith, finish_laws)

  pub phase-handle_response_on_cancel :
      (c t : ℕ) (p : SipPacket A) (w : World A) (d : ℕ)
      → phase (handle_response_on_cancel c t p w) d ≡ phase w d
  unfolding handle_response_on_cancel
  phase-handle_response_on_cancel c t p w d = grind (arith, finish_laws)

  pub phase-handle_non_success_on_invite :
      (c t : ℕ) (p : SipPacket A) (w : World A) (d : ℕ)
      → phase (handle_non_success_on_invite c t p w) d ≡ phase w d
  unfolding handle_non_success_on_invite
  phase-handle_non_success_on_invite c t p w d = grind (arith, phase_laws)

  pub phase-handle_success_on_invite :
      (c t : ℕ) (p : SipPacket A) (w : World A) (d : ℕ)
      → (phase (handle_success_on_invite c t p w) d ≡ phase w d)
        ⊎ ((d ≡ c) × (phase (handle_success_on_invite c t p w) d ≡ at DialogState.confirmed false))
  unfolding handle_success_on_invite
  phase-handle_success_on_invite c t p w d = grind (arith, phase_laws)

  pub phase-handle_provisional_on_invite :
      (c t : ℕ) (p : SipPacket A) (w : World A) (d : ℕ)
      → (phase (handle_provisional_on_invite c t p w) d ≡ phase w d)
        ⊎ ((d ≡ c)
            × (same p.to.tag "" ≡ false)
            × (phase (handle_provisional_on_invite c t p w) d
                ≡ record (phase w c) { state = DialogState.early }))
  unfolding handle_provisional_on_invite
  phase-handle_provisional_on_invite c t p w d = grind (arith, phase_laws)
