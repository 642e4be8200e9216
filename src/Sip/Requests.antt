-- ===== src/Sip/Requests.antt =====
-- The request handlers of src/sip/SipProcessor.cpp. `c` is `m_currCall`, `t` is `m_currTransaction`,
-- `p` is `m_currPacket`; log lines are left out.
use callx.Container.FriendlyMap.{FriendlyMap}
use callx.Container.FriendlyMap
use callx.Prelude.{
  ℕ, ◌==◌, Bool, true, false, List, [], ◌∷◌, none, some, suc, if◌then◌else◌, Key, same, string_key,
  update, ◌▷◌, not, String, ◌||◌,
}
use callx.Sip.Events.{create_and_push_event}
use callx.Sip.Sinks.{process_sdp, confirm_rtp_sinks, annul_rtp_sinks}
use callx.Sip.Types.{
  SipPacket, RequestMethod, TransactionPhase, TransactionState, DialogState, states, is_state,
  is_method,
}
use callx.Sip.World.{
  World, dialog_of, on_dialog, set_dialog_state, set_reinvite_flag, set_state, set_cancel_flag,
  set_ack_flag, find_transaction, find_invite_transaction, insert_transaction, del_transaction,
  new_transaction,
}

abbrev pub is_terminating : DialogState → Bool
is_terminating DialogState.terminating = true
is_terminating _ = false

abbrev pub is_pending : DialogState → Bool
is_pending DialogState.init = true
is_pending DialogState.early = true
is_pending _ = false

abbrev pub is_dialog_confirmed : DialogState → Bool
is_dialog_confirmed DialogState.confirmed = true
is_dialog_confirmed _ = false

-- `matchState`
abbrev pub match_state : List TransactionState → TransactionState → Bool
match_state [] s = false
match_state (x ∷ xs) s = is_state x s || match_state xs s

module _ {A : Type 0} ⦃k : Key A⦄ where
  -- A re-INVITE in a confirmed dialog, a new call otherwise.
  unfoldable pub open_dialog : ℕ → SipPacket A → World A → World A
  open_dialog c p w =
      if is_dialog_confirmed (dialog_of w c).state
      then set_reinvite_flag c true w
      else w
        ▷ set_dialog_state c DialogState.init
        ▷ on_dialog c (λ d. record d { caller = p.from; callee = p.to })

  -- `handleInvite`
  unfoldable pub handle_invite : ℕ → ℕ → SipPacket A → World A → World A
  unfolding open_dialog
  handle_invite c t p w =
      let s = (dialog_of w c).state in
      if is_terminating s
      then w
      else if is_pending s || (w.calls c).reinvite_flag
      then w
      else w
        ▷ open_dialog c p
        ▷ set_state t TransactionPhase.calling TransactionPhase.proceeding
        ▷ insert_transaction c t
        ▷ set_dialog_state c DialogState.init
        ▷ process_sdp c p
        ▷ create_and_push_event t

  -- `handleBye`, `handleOptions`
  unfoldable pub handle_bye : ℕ → ℕ → World A → World A
  handle_bye c t w =
      w
      ▷ set_state t TransactionPhase.trying TransactionPhase.trying
      ▷ insert_transaction c t
      ▷ create_and_push_event t

  unfoldable pub handle_options : ℕ → ℕ → World A → World A
  handle_options c t w =
      w
      ▷ set_state t TransactionPhase.trying TransactionPhase.trying
      ▷ insert_transaction c t
      ▷ create_and_push_event t

  -- `handleCancel`. A CSeq number that differs is logged, and nothing else.
  unfoldable pub handle_cancel : ℕ → ℕ → World A → World A
  handle_cancel c t w =
      let tr = w.transactions t in
      elim (find_transaction (record { branch = tr.id.branch; method = RequestMethod.invite })
        (w.calls c)) [
          | none ↦ w
          | some i ↦
              if not (same tr.sent_by (w.transactions i).sent_by)
              then w
              else w
                ▷ set_state t TransactionPhase.trying TransactionPhase.trying
                ▷ insert_transaction c t
                ▷ create_and_push_event t
                ▷ set_cancel_flag i
                ▷ create_and_push_event i
        ]

  -- `deleteCallFromCallMap`
  unfoldable pub delete_call_from_call_map : String → World A → World A
  delete_call_from_call_map call_id w = record w {
    call_map = (FriendlyMap.erase call_id w.call_map).0;
  }

  -- The end of a call whose first INVITE was refused.
  unfoldable pub drop_refused_call : ℕ → SipPacket A → World A → World A
  unfolding delete_call_from_call_map
  drop_refused_call c p w =
      if (w.calls c).reinvite_flag
      then w
      else w ▷ set_dialog_state c DialogState.terminating ▷ delete_call_from_call_map p.call_id

  -- `handleAckOnNonSuccess`
  unfoldable pub handle_ack_on_non_success : ℕ → ℕ → SipPacket A → World A → World A
  unfolding drop_refused_call
  handle_ack_on_non_success c t p w =
      if not (
        match_state (states TransactionPhase.terminated TransactionPhase.completed ∷ [])
          (w.transactions t).state)
      then w
      else w
        ▷ set_state t TransactionPhase.terminated TransactionPhase.terminated
        ▷ set_ack_flag t
        ▷ create_and_push_event t
        ▷ drop_refused_call c p
        ▷ annul_rtp_sinks c
        ▷ del_transaction c (w.transactions t).id

  -- `handleAckOnSuccess`
  unfoldable pub handle_ack_on_success : ℕ → ℕ → SipPacket A → World A → World A
  handle_ack_on_success c t p w =
      let tr = w.transactions t in
      elim (find_invite_transaction (w.calls c)) [
        | none ↦ w
        | some i ↦
            if not (same tr.sent_by (w.transactions i).sent_by)
            then w
            else if not ((w.transactions i).cseq_num == tr.cseq_num)
            then w
            else w
              ▷ set_ack_flag i
              ▷ create_and_push_event i
              ▷ set_state t TransactionPhase.terminated TransactionPhase.terminated
              ▷ process_sdp c p
              ▷ confirm_rtp_sinks c
              ▷ del_transaction c (w.transactions i).id
              ▷ del_transaction c tr.id
      ]

  -- The `switch` of `handleInitialRequest`.
  unfoldable pub dispatch_initial : RequestMethod → ℕ → ℕ → SipPacket A → World A → World A
  dispatch_initial RequestMethod.invite c t p w = handle_invite c t p w
  dispatch_initial RequestMethod.cancel c t p w = handle_cancel c t w
  dispatch_initial RequestMethod.ack c t p w = handle_ack_on_success c t p w
  dispatch_initial RequestMethod.bye c t p w = handle_bye c t w
  dispatch_initial RequestMethod.options c t p w = handle_options c t w
  dispatch_initial _ c t p w = w

  -- `handleInitialRequest`: a new transaction, which stays only if its handler inserts it.
  unfoldable pub handle_initial_request : ℕ → SipPacket A → World A → World A
  unfolding dispatch_initial
  handle_initial_request c p w =
      let t = w.next_transaction in
      dispatch_initial p.request_method c t p (record w {
        transactions = update w.transactions t (new_transaction w.now c p);
        next_transaction = suc t;
      })

  -- `handleRequestWithinTransaction`
  unfoldable pub handle_request_within_transaction : ℕ → ℕ → SipPacket A → World A → World A
  handle_request_within_transaction c t p w =
      if is_method p.request_method RequestMethod.ack then handle_ack_on_non_success c t p w else w
