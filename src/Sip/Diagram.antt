-- ===== src/Sip/Diagram.antt =====
-- The dialog diagram of src/sip/SipProcessor.cpp over whole packets.
use callx.Prelude.{
  ℕ, ◌≡◌, ◌⊎◌, inl, inr, refl, Bool, true, false, Key, string_key, arith, same, Option-cases,
  Bool-cases, ==_iff, ◌==◌,
}
use callx.Sip.Dialogs.{Phase, phase}
use callx.Sip.DialogSteps.{
  at, invited, phase-handle_invite, phase-handle_cancel, phase-handle_ack_on_success,
  phase-handle_bye, phase-handle_options, phase-handle_ack_on_non_success,
  phase-handle_response_on_bye, phase-handle_response_on_options, phase-handle_response_on_cancel,
  phase-handle_non_success_on_invite, phase-handle_success_on_invite,
  phase-handle_provisional_on_invite,
}
use callx.Sip.Processor.{match_transaction, dispatch_matched, dispatch_unmatched, handle_in_call}
use callx.Sip.Requests.{
  dispatch_initial, handle_initial_request, handle_request_within_transaction, handle_invite,
}
use callx.Sip.Responses.{
  handle_provisional, handle_success, handle_non_success, dispatch_response, handle_response,
}
use callx.Sip.Types.{
  SipPacket, RequestMethod, MessageType, ResponseCategory, DialogState, response_category,
}
use callx.Sip.World.{World, update_activity_clockstamp}

-- The edges for the packet `p`: a new call, a re-INVITE, an answer with a tag, an acceptance, a
-- refusal acknowledged; or none.
pub data Edge {A : Type 0} (p : SipPacket A) (v w : Phase) : Type 0 where
  opened :
      p.message_type ≡ MessageType.request
      → p.request_method ≡ RequestMethod.invite
      → v ≡ at DialogState.undefined false
      → w ≡ at DialogState.init false
      → Edge p v w
  reopened :
      p.message_type ≡ MessageType.request
      → p.request_method ≡ RequestMethod.invite
      → v ≡ at DialogState.confirmed false
      → w ≡ at DialogState.init true
      → Edge p v w
  answered :
      p.message_type ≡ MessageType.response
      → response_category p.response_code ≡ ResponseCategory.provisional
      → same p.to.tag "" ≡ false
      → w ≡ record v { state = DialogState.early }
      → Edge p v w
  accepted :
      p.message_type ≡ MessageType.response
      → response_category p.response_code ≡ ResponseCategory.success
      → w ≡ at DialogState.confirmed false
      → Edge p v w
  refused :
      p.message_type ≡ MessageType.request
      → p.request_method ≡ RequestMethod.ack
      → v.reinvite ≡ false
      → w ≡ record v { state = DialogState.terminating }
      → Edge p v w
  stayed : w ≡ v → Edge p v w

-- Only the packet's own call moves, along an edge.
abbrev Turn : {A : Type 0} → SipPacket A → ℕ → ℕ → World A → World A → Type 0
Turn p c d w w' = (phase w' d ≡ phase w d) ⊎ ((d ≡ c) × Edge p (phase w c) (phase w' d))

invited-Edge :
    {A : Type 0} (p : SipPacket A) (s : DialogState) (f : Bool)
    → p.message_type ≡ MessageType.request
    → p.request_method ≡ RequestMethod.invite
    → Edge p (at s f) (invited (at s f))
invited-Edge p DialogState.undefined false h m = opened h m refl refl
invited-Edge p DialogState.confirmed false h m = reopened h m refl refl
invited-Edge p DialogState.init false h m = stayed refl
invited-Edge p DialogState.early false h m = stayed refl
invited-Edge p DialogState.terminating false h m = stayed refl
invited-Edge p DialogState.terminating true h m = stayed refl
invited-Edge p _ true h m = stayed refl

module _ {A : Type 0} ⦃k : Key A⦄ where
  Turn-handle_invite :
      (c t d : ℕ) (p : SipPacket A) (w : World A)
      → p.message_type ≡ MessageType.request
      → p.request_method ≡ RequestMethod.invite
      → Turn p c d w (handle_invite c t p w)
  Turn-handle_invite c t d p w h e = elim (Bool-cases (d == c)) [
    | inl same_call ↦ inr (
      (==_iff d c).0 same_call,
      rw (phase-handle_invite c t p w d, same_call)
          (invited-Edge p (w.calls c).dialog.state (w.calls c).reinvite_flag h e),
    )
    | inr other ↦ inl (rw (phase-handle_invite c t p w d, other))
  ]

  Turn-dispatch_initial :
      (m : RequestMethod) (c t d : ℕ) (p : SipPacket A) (w : World A)
      → p.message_type ≡ MessageType.request
      → p.request_method ≡ m
      → Turn p c d w (dispatch_initial m c t p w)
  unfolding dispatch_initial
  Turn-dispatch_initial RequestMethod.invite c t d p w h e = Turn-handle_invite c t d p w h e
  Turn-dispatch_initial RequestMethod.cancel c t d p w h e = inl (phase-handle_cancel c t w d)
  Turn-dispatch_initial RequestMethod.ack c t d p w h e =
      inl (phase-handle_ack_on_success c t p w d)
  Turn-dispatch_initial RequestMethod.bye c t d p w h e = inl (phase-handle_bye c t w d)
  Turn-dispatch_initial RequestMethod.options c t d p w h e = inl (phase-handle_options c t w d)
  Turn-dispatch_initial _ c t d p w h e = inl refl

  Turn-handle_request_within_transaction :
      (c t d : ℕ) (p : SipPacket A) (w : World A)
      → p.message_type ≡ MessageType.request
      → Turn p c d w (handle_request_within_transaction c t p w)
  unfolding handle_request_within_transaction
  Turn-handle_request_within_transaction c t d p w h =
      ground (arith, phase-handle_ack_on_non_success c t p w d)

  Turn-dispatch_response :
      (r : ResponseCategory) (m : RequestMethod) (c t d : ℕ) (p : SipPacket A) (w : World A)
      → p.message_type ≡ MessageType.response
      → response_category p.response_code ≡ r
      → Turn p c d w (dispatch_response r m c t p w)
  unfolding dispatch_response handle_provisional handle_success handle_non_success
  Turn-dispatch_response ResponseCategory.provisional RequestMethod.invite c t d p w h e =
      ground (arith, phase-handle_provisional_on_invite c t p w d)
  Turn-dispatch_response ResponseCategory.provisional _ c t d p w h e = inl refl
  Turn-dispatch_response ResponseCategory.success RequestMethod.invite c t d p w h e =
      ground (arith, phase-handle_success_on_invite c t p w d)
  Turn-dispatch_response _ RequestMethod.invite c t d p w h e =
      inl (phase-handle_non_success_on_invite c t p w d)
  Turn-dispatch_response _ RequestMethod.bye c t d p w h e =
      inl (phase-handle_response_on_bye c t p w d)
  Turn-dispatch_response _ RequestMethod.options c t d p w h e =
      inl (phase-handle_response_on_options c t p w d)
  Turn-dispatch_response _ RequestMethod.cancel c t d p w h e =
      inl (phase-handle_response_on_cancel c t p w d)
  Turn-dispatch_response ResponseCategory.success _ c t d p w h e = inl refl
  Turn-dispatch_response _ _ c t d p w h e = inl refl

  Turn-dispatch_unmatched :
      (m : MessageType) (c d : ℕ) (p : SipPacket A) (w : World A)
      → p.message_type ≡ m
      → Turn p c d w (dispatch_unmatched m c p w)
  unfolding dispatch_unmatched handle_initial_request
  Turn-dispatch_unmatched MessageType.request c d p w h =
      Turn-dispatch_initial p.request_method c w.next_transaction d p _ h refl
  Turn-dispatch_unmatched MessageType.response c d p w h = inl refl
  Turn-dispatch_unmatched MessageType.malformed c d p w h = inl refl

  Turn-dispatch_matched :
      (m : MessageType) (c t d : ℕ) (p : SipPacket A) (w : World A)
      → p.message_type ≡ m
      → Turn p c d w (dispatch_matched m c t p w)
  unfolding dispatch_matched handle_response
  Turn-dispatch_matched MessageType.request c t d p w h =
      Turn-handle_request_within_transaction c t d p w h
  Turn-dispatch_matched MessageType.response c t d p w h =
      Turn-dispatch_response (response_category p.response_code) _ c t d p w h refl
  Turn-dispatch_matched MessageType.malformed c t d p w h = inl refl

  -- A packet handled in the call `c` moves the dialog of no other call, and that of `c`, if at all,
  -- along an edge of the diagram that the packet's own method or response category allows.
  pub handle_in_call-Edge :
      (c d : ℕ) (p : SipPacket A) (w : World A)
      → (phase (handle_in_call c p w) d ≡ phase w d)
        ⊎ ((d ≡ c) × Edge p (phase w c) (phase (handle_in_call c p w) d))
  unfolding handle_in_call update_activity_clockstamp
  handle_in_call-Edge c d p w = elim (Option-cases (match_transaction p (w.calls c))) [
    | inl e ↦ rw (e, handle_in_call) (Turn-dispatch_unmatched p.message_type c d p w refl)
    | inr (t, e) ↦
        rw (e, handle_in_call)
          (Turn-dispatch_matched p.message_type c t d p (update_activity_clockstamp t w) refl)
  ]
