-- ===== src/Sip/Moves.antt =====
-- What one packet, in the handlers of src/sip/SipProcessor.cpp, does to the custody of the calls.
use callx.Container.FriendlyMap.{FriendlyMap}
use callx.Container.FriendlyMap
use callx.Prelude.{
  ℕ, ◌≡◌, ◌⊎◌, refl, [], ◌∷◌, ◌++◌, Key, String, string_key, arith, inl, if◌then◌else◌,
}
use callx.Sip.Custody.{Custody, custody, custody_laws, custody-unregister_rtp_sinks}
use callx.Sip.Requests.{
  open_dialog, handle_invite, handle_bye, handle_options, handle_cancel, drop_refused_call,
  handle_ack_on_non_success, handle_ack_on_success, dispatch_initial, handle_initial_request,
}
use callx.Sip.Responses.{
  handle_provisional_on_invite, handle_provisional, handle_success_on_invite,
  handle_non_success_on_invite, prepare_call_to_decode, finish_transaction, handle_response_on_bye,
  handle_response_on_options, handle_response_on_cancel, handle_success, handle_non_success,
  dispatch_response,
}
use callx.Sip.Types.{SipPacket, RequestMethod, ResponseCategory}
use callx.Sip.World.{World, set_dialog_state}

abbrev pub taken_out : String → Custody → Custody
taken_out call_id v = record v { call_map = (FriendlyMap.erase call_id v.call_map).0 }

abbrev pub moved_on : ℕ → String → Custody → Custody
moved_on c call_id v = record (taken_out call_id v) { decode_queue = v.decode_queue ++ c ∷ [] }

-- What a round in the call `c` with the id `call_id` may do: nothing, take the call out of the map,
-- or move it to the queue.
abbrev pub Moved : ℕ → String → Custody → Custody → Type 0
Moved c call_id v w = (w ≡ v) ⊎ (w ≡ taken_out call_id v) ⊎ (w ≡ moved_on c call_id v)

module _ {A : Type 0} ⦃k : Key A⦄ where
  custody-open_dialog :
      (c : ℕ) (p : SipPacket A) (w : World A) → custody (open_dialog c p w) ≡ custody w
  unfolding open_dialog
  custody-open_dialog c p w = grind (arith, custody_laws)

  custody-handle_invite :
      (c t : ℕ) (p : SipPacket A) (w : World A) → custody (handle_invite c t p w) ≡ custody w
  unfolding handle_invite
  custody-handle_invite c t p w = grind (arith, custody_laws, custody-open_dialog)

  custody-handle_cancel : (c t : ℕ) (w : World A) → custody (handle_cancel c t w) ≡ custody w
  unfolding handle_cancel
  custody-handle_cancel c t w = grind (arith, custody_laws)

  custody-handle_bye : (c t : ℕ) (w : World A) → custody (handle_bye c t w) ≡ custody w
  unfolding handle_bye
  custody-handle_bye c t w = simp custody_laws

  custody-handle_options : (c t : ℕ) (w : World A) → custody (handle_options c t w) ≡ custody w
  unfolding handle_options
  custody-handle_options c t w = simp custody_laws

  custody-handle_ack_on_success :
      (c t : ℕ) (p : SipPacket A) (w : World A)
      → custody (handle_ack_on_success c t p w) ≡ custody w
  unfolding handle_ack_on_success
  custody-handle_ack_on_success c t p w = grind (arith, custody_laws)

  custody-drop_refused_call :
      (c : ℕ) (p : SipPacket A) (w : World A)
      → custody (drop_refused_call c p w)
        ≡ (if (w.calls c).reinvite_flag then custody w else taken_out p.call_id (custody w))
  unfolding drop_refused_call set_dialog_state
  custody-drop_refused_call c p w = ground arith

  pub Moved-handle_ack_on_non_success :
      (c t : ℕ) (p : SipPacket A) (w : World A)
      → Moved c p.call_id (custody w) (custody (handle_ack_on_non_success c t p w))
  unfolding handle_ack_on_non_success
  Moved-handle_ack_on_non_success c t p w = grind (arith, custody_laws, custody-drop_refused_call)

  custody-dispatch_initial :
      (m : RequestMethod) (c t : ℕ) (p : SipPacket A) (w : World A)
      → custody (dispatch_initial m c t p w) ≡ custody w
  unfolding dispatch_initial
  custody-dispatch_initial RequestMethod.invite c t p w = custody-handle_invite c t p w
  custody-dispatch_initial RequestMethod.cancel c t p w = custody-handle_cancel c t w
  custody-dispatch_initial RequestMethod.ack c t p w = custody-handle_ack_on_success c t p w
  custody-dispatch_initial RequestMethod.bye c t p w = custody-handle_bye c t w
  custody-dispatch_initial RequestMethod.options c t p w = custody-handle_options c t w
  custody-dispatch_initial _ c t p w = refl

  pub custody-handle_initial_request :
      (c : ℕ) (p : SipPacket A) (w : World A) → custody (handle_initial_request c p w) ≡ custody w
  unfolding handle_initial_request
  custody-handle_initial_request c p w =
      custody-dispatch_initial p.request_method c w.next_transaction p _

  custody-finish_transaction :
      (c t : ℕ) (p : SipPacket A) (w : World A) → custody (finish_transaction c t p w) ≡ custody w
  unfolding finish_transaction
  custody-finish_transaction c t p w = simp custody_laws

  custody-handle_success_on_invite :
      (c t : ℕ) (p : SipPacket A) (w : World A)
      → custody (handle_success_on_invite c t p w) ≡ custody w
  unfolding handle_success_on_invite
  custody-handle_success_on_invite c t p w = grind (arith, custody_laws)

  custody-handle_non_success_on_invite :
      (c t : ℕ) (p : SipPacket A) (w : World A)
      → custody (handle_non_success_on_invite c t p w) ≡ custody w
  unfolding handle_non_success_on_invite
  custody-handle_non_success_on_invite c t p w = grind (arith, custody_laws)

  custody-handle_provisional_on_invite :
      (c t : ℕ) (p : SipPacket A) (w : World A)
      → custody (handle_provisional_on_invite c t p w) ≡ custody w
  unfolding handle_provisional_on_invite
  custody-handle_provisional_on_invite c t p w = grind (arith, custody_laws)

  custody-prepare_call_to_decode :
      (c : ℕ) (i : String) (w : World A)
      → custody (prepare_call_to_decode c i w) ≡ moved_on c i (custody w)
  unfolding prepare_call_to_decode
  custody-prepare_call_to_decode c i w = cc (custody-unregister_rtp_sinks c w)

  Moved-handle_response_on_bye :
      (c t : ℕ) (p : SipPacket A) (w : World A)
      → Moved c p.call_id (custody w) (custody (handle_response_on_bye c t p w))
  unfolding handle_response_on_bye
  Moved-handle_response_on_bye c t p w =
      grind (arith, custody-finish_transaction, custody-prepare_call_to_decode)

  custody-handle_response_on_options :
      (c t : ℕ) (p : SipPacket A) (w : World A)
      → custody (handle_response_on_options c t p w) ≡ custody w
  unfolding handle_response_on_options
  custody-handle_response_on_options c t p w = grind (arith, custody-finish_transaction)

  custody-handle_response_on_cancel :
      (c t : ℕ) (p : SipPacket A) (w : World A)
      → custody (handle_response_on_cancel c t p w) ≡ custody w
  unfolding handle_response_on_cancel
  custody-handle_response_on_cancel c t p w = grind (arith, custody-finish_transaction)

  pub Moved-dispatch_response :
      (r : ResponseCategory) (m : RequestMethod) (c t : ℕ) (p : SipPacket A) (w : World A)
      → Moved c p.call_id (custody w) (custody (dispatch_response r m c t p w))
  unfolding dispatch_response handle_provisional handle_success handle_non_success
  Moved-dispatch_response ResponseCategory.provisional RequestMethod.invite c t p w =
      inl (custody-handle_provisional_on_invite c t p w)
  Moved-dispatch_response ResponseCategory.provisional _ c t p w = inl refl
  Moved-dispatch_response ResponseCategory.success RequestMethod.invite c t p w =
      inl (custody-handle_success_on_invite c t p w)
  Moved-dispatch_response _ RequestMethod.invite c t p w =
      inl (custody-handle_non_success_on_invite c t p w)
  Moved-dispatch_response _ RequestMethod.bye c t p w = Moved-handle_response_on_bye c t p w
  Moved-dispatch_response _ RequestMethod.options c t p w =
      inl (custody-handle_response_on_options c t p w)
  Moved-dispatch_response _ RequestMethod.cancel c t p w =
      inl (custody-handle_response_on_cancel c t p w)
  Moved-dispatch_response ResponseCategory.success _ c t p w = inl refl
  Moved-dispatch_response _ _ c t p w = inl refl
