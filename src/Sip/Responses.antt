-- ===== src/Sip/Responses.antt =====
-- The response handlers of src/sip/SipProcessor.cpp. `c` is `m_currCall`, `t` is `m_currTransaction`,
-- `p` is `m_currPacket`; log lines are left out.
use callx.Prelude.{
  ℕ, false, List, [], ◌∷◌, ◌++◌, none, if◌then◌else◌, Key, same, string_key, ◌▷◌, not, String, ltb,
}
use callx.Sip.Events.{create_and_push_event}
use callx.Sip.Requests.{match_state, delete_call_from_call_map}
use callx.Sip.Sinks.{process_sdp, annul_rtp_sinks, unregister_rtp_sinks}
use callx.Sip.Types.{
  SipPacket, RequestMethod, ResponseCategory, TransactionPhase, TransactionState, DialogState,
  states, response_category,
}
use callx.Sip.World.{
  World, on_dialog, set_dialog_state, set_reinvite_flag, set_state, set_final_response,
  del_transaction,
}

-- The states in which a response to an INVITE, or to another request, is taken.
abbrev pub invite_pending : List TransactionState
invite_pending =
    states TransactionPhase.calling TransactionPhase.proceeding
    ∷ states TransactionPhase.proceeding TransactionPhase.proceeding
    ∷ []

abbrev pub other_pending : List TransactionState
other_pending =
    states TransactionPhase.trying TransactionPhase.trying
    ∷ states TransactionPhase.proceeding TransactionPhase.proceeding
    ∷ []

module _ {A : Type 0} ⦃k : Key A⦄ where
  -- The callee's tag and name, which an INVITE request does not have.
  unfoldable pub learn_callee : ℕ → SipPacket A → World A → World A
  learn_callee c p = on_dialog c (λ d. record d {
    callee = record d.callee { tag = p.to.tag; displayname = p.to.displayname };
  })

  -- `handleProvisionalOnInvite`
  unfoldable pub handle_provisional_on_invite : ℕ → ℕ → SipPacket A → World A → World A
  unfolding learn_callee
  handle_provisional_on_invite c t p w =
      if not (match_state invite_pending (w.transactions t).state)
      then w
      else let w' = set_state t TransactionPhase.proceeding TransactionPhase.proceeding w in
        if not (ltb 100 p.response_code)
        then w'
        else let w'' = learn_callee c p w' in
          if same p.to.tag "" then w'' else set_dialog_state c DialogState.early w''

  -- `handleProvisional`
  unfoldable pub handle_provisional : RequestMethod → ℕ → ℕ → SipPacket A → World A → World A
  handle_provisional RequestMethod.invite c t p w = handle_provisional_on_invite c t p w
  handle_provisional _ c t p w = w

  -- `handleProvisionalOnNonInvite`, which nothing calls.
  unfoldable pub handle_provisional_on_non_invite : ℕ → World A → World A
  handle_provisional_on_non_invite t w =
      if not (match_state other_pending (w.transactions t).state)
      then w
      else set_state t TransactionPhase.proceeding TransactionPhase.proceeding w

  -- `handleSuccessOnInvite`
  unfoldable pub handle_success_on_invite : ℕ → ℕ → SipPacket A → World A → World A
  unfolding learn_callee
  handle_success_on_invite c t p w =
      if not (match_state invite_pending (w.transactions t).state)
      then w
      else w
        ▷ set_state t TransactionPhase.terminated TransactionPhase.terminated
        ▷ set_dialog_state c DialogState.confirmed
        ▷ set_final_response t p.response_code p.response_reason
        ▷ learn_callee c p
        ▷ create_and_push_event t
        ▷ process_sdp c p
        ▷ set_reinvite_flag c false

  -- `handleNonSuccessOnInvite`
  unfoldable pub handle_non_success_on_invite : ℕ → ℕ → SipPacket A → World A → World A
  handle_non_success_on_invite c t p w =
      if not (match_state invite_pending (w.transactions t).state)
      then w
      else w
        ▷ set_state t TransactionPhase.terminated TransactionPhase.completed
        ▷ set_final_response t p.response_code p.response_reason
        ▷ create_and_push_event t
        ▷ annul_rtp_sinks c

  -- `prepareCallToDecode`: the reference moves from `m_currCall` to the `CallDecodeQueue`.
  unfoldable pub prepare_call_to_decode : ℕ → String → World A → World A
  unfolding delete_call_from_call_map
  prepare_call_to_decode c call_id w =
      let w' = w ▷ unregister_rtp_sinks c ▷ delete_call_from_call_map call_id in
      record w' { decode_queue = w'.decode_queue ++ c ∷ []; curr_call = none }

  -- The common part of `handleResponseOnBye`, `handleResponseOnOptions`, `handleResponseOnCancel`.
  unfoldable pub finish_transaction : ℕ → ℕ → SipPacket A → World A → World A
  finish_transaction c t p w =
      w
      ▷ set_state t TransactionPhase.terminated TransactionPhase.terminated
      ▷ set_final_response t p.response_code p.response_reason
      ▷ create_and_push_event t
      ▷ del_transaction c (w.transactions t).id

  -- `handleResponseOnBye`
  unfoldable pub handle_response_on_bye : ℕ → ℕ → SipPacket A → World A → World A
  handle_response_on_bye c t p w =
      if not (match_state other_pending (w.transactions t).state)
      then w
      else w ▷ finish_transaction c t p ▷ prepare_call_to_decode c p.call_id

  -- `handleResponseOnOptions`
  unfoldable pub handle_response_on_options : ℕ → ℕ → SipPacket A → World A → World A
  handle_response_on_options c t p w =
      if not (match_state other_pending (w.transactions t).state)
      then w
      else finish_transaction c t p w

  -- `handleResponseOnCancel`
  unfoldable pub handle_response_on_cancel : ℕ → ℕ → SipPacket A → World A → World A
  handle_response_on_cancel c t p w =
      if not (match_state other_pending (w.transactions t).state)
      then w
      else finish_transaction c t p w

  -- `handleSuccess`
  unfoldable pub handle_success : RequestMethod → ℕ → ℕ → SipPacket A → World A → World A
  handle_success RequestMethod.invite c t p w = handle_success_on_invite c t p w
  handle_success RequestMethod.bye c t p w = handle_response_on_bye c t p w
  handle_success RequestMethod.options c t p w = handle_response_on_options c t p w
  handle_success RequestMethod.cancel c t p w = handle_response_on_cancel c t p w
  handle_success _ c t p w = w

  -- `handleNonSuccess`
  unfoldable pub handle_non_success : RequestMethod → ℕ → ℕ → SipPacket A → World A → World A
  handle_non_success RequestMethod.invite c t p w = handle_non_success_on_invite c t p w
  handle_non_success RequestMethod.bye c t p w = handle_response_on_bye c t p w
  handle_non_success RequestMethod.options c t p w = handle_response_on_options c t p w
  handle_non_success RequestMethod.cancel c t p w = handle_response_on_cancel c t p w
  handle_non_success _ c t p w = w

  -- The `switch` of `handleResponse`.
  unfoldable pub dispatch_response :
      ResponseCategory → RequestMethod → ℕ → ℕ → SipPacket A → World A → World A
  dispatch_response ResponseCategory.provisional m c t p w = handle_provisional m c t p w
  dispatch_response ResponseCategory.success m c t p w = handle_success m c t p w
  dispatch_response _ m c t p w = handle_non_success m c t p w

  -- `handleResponse`
  unfoldable pub handle_response : ℕ → ℕ → SipPacket A → World A → World A
  unfolding dispatch_response
  handle_response c t p w =
      dispatch_response (response_category p.response_code) (w.transactions t).id.method c t p w
