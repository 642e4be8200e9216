-- ===== src/Sip/IdSteps.antt =====
-- The id of a call, through the handlers of src/sip/SipProcessor.cpp.
use callx.Prelude.{refl, inl, inr, Option-cases, ℕ, ◌≡◌, Key, String, string_key, arith}
use callx.Sip.Ids.{call_id_of, call_id_laws, call_id-unregister_rtp_sinks}
use callx.Sip.Requests.{
  open_dialog, handle_invite, handle_bye, handle_options, handle_cancel, drop_refused_call,
  handle_ack_on_non_success, handle_ack_on_success, dispatch_initial, handle_initial_request,
  handle_request_within_transaction,
}
use callx.Sip.Responses.{
  handle_provisional_on_invite, handle_success_on_invite, handle_non_success_on_invite,
  prepare_call_to_decode, finish_transaction, handle_response_on_bye, handle_response_on_options,
  handle_response_on_cancel, handle_provisional, handle_success, handle_non_success,
  dispatch_response, handle_response,
}
use callx.Sip.Processor.{match_transaction, dispatch_matched, dispatch_unmatched, handle_in_call}
use callx.Sip.Types.{RequestMethod, MessageType, ResponseCategory, SipPacket}
use callx.Sip.World.{update_activity_clockstamp, World, set_dialog_state, set_reinvite_flag}

module _ {A : Type 0} ⦃k : Key A⦄ where
  call_id-open_dialog :
      (c : ℕ) (p : SipPacket A) (w : World A) (d : ℕ)
      → call_id_of (open_dialog c p w) d ≡ call_id_of w d
  unfolding open_dialog set_dialog_state set_reinvite_flag
  call_id-open_dialog c p w d = grind (arith, call_id_laws)

  pub call_id-handle_invite :
      (c t : ℕ) (p : SipPacket A) (w : World A) (d : ℕ)
      → call_id_of (handle_invite c t p w) d ≡ call_id_of w d
  unfolding handle_invite
  call_id-handle_invite c t p w d = grind (arith, call_id_laws, call_id-open_dialog)

  pub call_id-handle_cancel :
      (c t : ℕ) (w : World A) (d : ℕ) → call_id_of (handle_cancel c t w) d ≡ call_id_of w d
  unfolding handle_cancel
  call_id-handle_cancel c t w d = grind (arith, call_id_laws)

  pub call_id-handle_ack_on_success :
      (c t : ℕ) (p : SipPacket A) (w : World A) (d : ℕ)
      → call_id_of (handle_ack_on_success c t p w) d ≡ call_id_of w d
  unfolding handle_ack_on_success
  call_id-handle_ack_on_success c t p w d = grind (arith, call_id_laws)

  pub call_id-handle_bye :
      (c t : ℕ) (w : World A) (d : ℕ) → call_id_of (handle_bye c t w) d ≡ call_id_of w d
  unfolding handle_bye
  call_id-handle_bye c t w d = simp call_id_laws

  pub call_id-handle_options :
      (c t : ℕ) (w : World A) (d : ℕ) → call_id_of (handle_options c t w) d ≡ call_id_of w d
  unfolding handle_options
  call_id-handle_options c t w d = simp call_id_laws

  call_id-drop_refused_call :
      (c : ℕ) (p : SipPacket A) (w : World A) (d : ℕ)
      → call_id_of (drop_refused_call c p w) d ≡ call_id_of w d
  unfolding drop_refused_call set_dialog_state
  call_id-drop_refused_call c p w d = grind (arith, call_id_laws)

  pub call_id-handle_ack_on_non_success :
      (c t : ℕ) (p : SipPacket A) (w : World A) (d : ℕ)
      → call_id_of (handle_ack_on_non_success c t p w) d ≡ call_id_of w d
  unfolding handle_ack_on_non_success
  call_id-handle_ack_on_non_success c t p w d =
      grind (arith, call_id_laws, call_id-drop_refused_call)

  call_id-finish_transaction :
      (c t : ℕ) (p : SipPacket A) (w : World A) (d : ℕ)
      → call_id_of (finish_transaction c t p w) d ≡ call_id_of w d
  unfolding finish_transaction
  call_id-finish_transaction c t p w d = simp call_id_laws

  call_id-prepare_call_to_decode :
      (c : ℕ) (i : String) (w : World A) (d : ℕ)
      → call_id_of (prepare_call_to_decode c i w) d ≡ call_id_of w d
  unfolding prepare_call_to_decode
  call_id-prepare_call_to_decode c i w d = call_id-unregister_rtp_sinks c w d

  ruleset finish_laws = (call_id-finish_transaction, call_id-prepare_call_to_decode)

  pub call_id-handle_response_on_bye :
      (c t : ℕ) (p : SipPacket A) (w : World A) (d : ℕ)
      → call_id_of (handle_response_on_bye c t p w) d ≡ call_id_of w d
  unfolding handle_response_on_bye
  call_id-handle_response_on_bye c t p w d = grind (arith, finish_laws)

  pub call_id-handle_response_on_options :
      (c t : ℕ) (p : SipPacket A) (w : World A) (d : ℕ)
      → call_id_of (handle_response_on_options c t p w) d ≡ call_id_of w d
  unfolding handle_response_on_options
  call_id-handle_response_on_options c t p w d = grind (arith, finish_laws)

  pub call_id-handle_response_on_cancel :
      (c t : ℕ) (p : SipPacket A) (w : World A) (d : ℕ)
      → call_id_of (handle_response_on_cancel c t p w) d ≡ call_id_of w d
  unfolding handle_response_on_cancel
  call_id-handle_response_on_cancel c t p w d = grind (arith, finish_laws)

  pub call_id-handle_non_success_on_invite :
      (c t : ℕ) (p : SipPacket A) (w : World A) (d : ℕ)
      → call_id_of (handle_non_success_on_invite c t p w) d ≡ call_id_of w d
  unfolding handle_non_success_on_invite
  call_id-handle_non_success_on_invite c t p w d = grind (arith, call_id_laws)

  pub call_id-handle_success_on_invite :
      (c t : ℕ) (p : SipPacket A) (w : World A) (d : ℕ)
      → call_id_of (handle_success_on_invite c t p w) d ≡ call_id_of w d
  unfolding handle_success_on_invite
  call_id-handle_success_on_invite c t p w d = grind (arith, call_id_laws)

  pub call_id-handle_provisional_on_invite :
      (c t : ℕ) (p : SipPacket A) (w : World A) (d : ℕ)
      → call_id_of (handle_provisional_on_invite c t p w) d ≡ call_id_of w d
  unfolding handle_provisional_on_invite
  call_id-handle_provisional_on_invite c t p w d = grind (arith, call_id_laws)

  call_id-dispatch_initial :
      (m : RequestMethod) (c t : ℕ) (p : SipPacket A) (w : World A) (d : ℕ)
      → call_id_of (dispatch_initial m c t p w) d ≡ call_id_of w d
  unfolding dispatch_initial
  call_id-dispatch_initial RequestMethod.invite c t p w d = call_id-handle_invite c t p w d
  call_id-dispatch_initial RequestMethod.cancel c t p w d = call_id-handle_cancel c t w d
  call_id-dispatch_initial RequestMethod.ack c t p w d = call_id-handle_ack_on_success c t p w d
  call_id-dispatch_initial RequestMethod.bye c t p w d = call_id-handle_bye c t w d
  call_id-dispatch_initial RequestMethod.options c t p w d = call_id-handle_options c t w d
  call_id-dispatch_initial _ c t p w d = refl

  call_id-handle_initial_request :
      (c : ℕ) (p : SipPacket A) (w : World A) (d : ℕ)
      → call_id_of (handle_initial_request c p w) d ≡ call_id_of w d
  unfolding handle_initial_request
  call_id-handle_initial_request c p w d =
      call_id-dispatch_initial p.request_method c w.next_transaction p _ d

  call_id-dispatch_response :
      (r : ResponseCategory) (m : RequestMethod) (c t : ℕ) (p : SipPacket A) (w : World A) (d : ℕ)
      → call_id_of (dispatch_response r m c t p w) d ≡ call_id_of w d
  unfolding dispatch_response handle_provisional handle_success handle_non_success
  call_id-dispatch_response ResponseCategory.provisional RequestMethod.invite c t p w d =
      call_id-handle_provisional_on_invite c t p w d
  call_id-dispatch_response ResponseCategory.provisional _ c t p w d = refl
  call_id-dispatch_response ResponseCategory.success RequestMethod.invite c t p w d =
      call_id-handle_success_on_invite c t p w d
  call_id-dispatch_response _ RequestMethod.invite c t p w d =
      call_id-handle_non_success_on_invite c t p w d
  call_id-dispatch_response _ RequestMethod.bye c t p w d = call_id-handle_response_on_bye c t p w d
  call_id-dispatch_response _ RequestMethod.options c t p w d =
      call_id-handle_response_on_options c t p w d
  call_id-dispatch_response _ RequestMethod.cancel c t p w d =
      call_id-handle_response_on_cancel c t p w d
  call_id-dispatch_response ResponseCategory.success _ c t p w d = refl
  call_id-dispatch_response _ _ c t p w d = refl

  call_id-dispatch_matched :
      (m : MessageType) (c t : ℕ) (p : SipPacket A) (w : World A) (d : ℕ)
      → call_id_of (dispatch_matched m c t p w) d ≡ call_id_of w d
  unfolding dispatch_matched handle_request_within_transaction handle_response
  call_id-dispatch_matched MessageType.request c t p w d =
      ground (arith, call_id-handle_ack_on_non_success c t p w d)
  call_id-dispatch_matched MessageType.response c t p w d = call_id-dispatch_response _ _ c t p w d
  call_id-dispatch_matched MessageType.malformed c t p w d = refl

  call_id-dispatch_unmatched :
      (m : MessageType) (c : ℕ) (p : SipPacket A) (w : World A) (d : ℕ)
      → call_id_of (dispatch_unmatched m c p w) d ≡ call_id_of w d
  unfolding dispatch_unmatched
  call_id-dispatch_unmatched MessageType.request c p w d = call_id-handle_initial_request c p w d
  call_id-dispatch_unmatched MessageType.response c p w d = refl
  call_id-dispatch_unmatched MessageType.malformed c p w d = refl

  pub call_id-handle_in_call :
      (c : ℕ) (p : SipPacket A) (w : World A) (d : ℕ)
      → call_id_of (handle_in_call c p w) d ≡ call_id_of w d
  unfolding handle_in_call update_activity_clockstamp
  call_id-handle_in_call c p w d = elim (Option-cases (match_transaction p (w.calls c))) [
    | inl e ↦ rw (e, handle_in_call) (call_id-dispatch_unmatched p.message_type c p w d)
    | inr (t, e) ↦
        rw (e, handle_in_call)
          (call_id-dispatch_matched p.message_type c t p (update_activity_clockstamp t w) d)
  ]
