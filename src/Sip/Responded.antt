-- ===== src/Sip/Responded.antt =====
-- Responses in src/sip/SipProcessor.cpp: the final response to an INVITE, and that to a BYE.
use callx.Container.FriendlyMap.{FriendlyMap}
use callx.Container.FriendlyMap
use callx.Container.Map.{Map, find-erase}
use callx.Container.Map
use callx.Network.SocketAddress.{SocketAddress, socket_key}
use callx.Prelude.{
  ℕ, ◌≡◌, ◌≢◌, refl, ap, ◌∙◌, [], ◌∷◌, ◌++◌, true, false, none, Key, String, string_key, arith,
  if◌then◌else◌, same, is_some,
}
use callx.Sip.Events.{create_and_push_event}
use callx.Sip.Registration.{registered, registered-unregister_each}
use callx.Sip.Requests.{match_state}
use callx.Sip.Responses.{
  invite_pending, other_pending, learn_callee, handle_provisional_on_invite, handle_provisional,
  handle_success_on_invite, handle_non_success_on_invite, prepare_call_to_decode,
  finish_transaction, handle_response_on_bye, handle_success, handle_non_success, dispatch_response,
  handle_response,
}
use callx.Sip.Sinks.{
  process_sdp, annul_sink, annul_each, annul_rtp_sinks, unregister_each, unregister_rtp_sinks,
}
use callx.Sip.Types.{SipPacket, RequestMethod, ResponseCategory, response_category}
use callx.Sip.World.{
  World, set_dialog_state, set_reinvite_flag, set_state, set_final_response, del_transaction,
}

module _ {A : Type 0} where
  transactions-create_and_push_event :
      (t : ℕ) (w : World A) → (create_and_push_event t w).transactions ≡ w.transactions
  unfolding create_and_push_event
  transactions-create_and_push_event t w = ground arith

module _ {A : Type 0} ⦃k : Key A⦄ where
  transactions-process_sdp :
      (c : ℕ) (p : SipPacket A) (w : World A) → (process_sdp c p w).transactions ≡ w.transactions
  unfolding process_sdp
  transactions-process_sdp c p w = ground arith

  transactions-annul_each :
      (m : Map (SocketAddress A) ℕ) (w : World A) → (annul_each m w).transactions ≡ w.transactions
  unfolding annul_each annul_sink
  transactions-annul_each [] w = refl
  transactions-annul_each ((a, s) ∷ m) w =
      ground (arith, transactions-annul_each m (annul_sink a s (w.sinks s).status w))

  transactions-annul_rtp_sinks :
      (c : ℕ) (w : World A) → (annul_rtp_sinks c w).transactions ≡ w.transactions
  unfolding annul_rtp_sinks
  transactions-annul_rtp_sinks c w = transactions-annul_each (w.calls c).local_sinks w

  -- An INVITE transaction that takes no response.
  abbrev IsClosed : ℕ → World A → Type 0
  IsClosed t w =
      (match_state invite_pending (w.transactions t).state ≡ false)
      × ((w.transactions t).id.method ≡ RequestMethod.invite)

  IsClosed-handle_success_on_invite :
      (c t : ℕ) (p : SipPacket A) (w : World A)
      → (w.transactions t).id.method ≡ RequestMethod.invite
      → IsClosed t (handle_success_on_invite c t p w)
  unfolding handle_success_on_invite set_state set_final_response set_dialog_state set_reinvite_flag
      learn_callee
  IsClosed-handle_success_on_invite c t p w h =
      grind (arith, transactions-create_and_push_event, transactions-process_sdp)

  IsClosed-handle_non_success_on_invite :
      (c t : ℕ) (p : SipPacket A) (w : World A)
      → (w.transactions t).id.method ≡ RequestMethod.invite
      → IsClosed t (handle_non_success_on_invite c t p w)
  unfolding handle_non_success_on_invite set_state set_final_response
  IsClosed-handle_non_success_on_invite c t p w h =
      grind (arith, transactions-create_and_push_event, transactions-annul_rtp_sinks)

  closed_ignores :
      (c t : ℕ) (r : ResponseCategory) (q : SipPacket A) (w : World A)
      → IsClosed t w
      → dispatch_response r (w.transactions t).id.method c t q w ≡ w
  unfolding dispatch_response handle_provisional handle_success handle_non_success
      handle_provisional_on_invite handle_success_on_invite handle_non_success_on_invite
  closed_ignores c t ResponseCategory.provisional q w h =
      rw (h.1) (rw (h.0, handle_provisional_on_invite))
  closed_ignores c t ResponseCategory.success q w h = rw (h.1) (rw (h.0, handle_success_on_invite))
  closed_ignores c t _ q w h = rw (h.1) (rw (h.0, handle_non_success_on_invite))

  final_closes :
      (c t : ℕ) (r : ResponseCategory) (p : SipPacket A) (w : World A)
      → (w.transactions t).id.method ≡ RequestMethod.invite
      → r ≢ ResponseCategory.provisional
      → IsClosed t (dispatch_response r (w.transactions t).id.method c t p w)
  unfolding dispatch_response handle_success handle_non_success
  final_closes c t ResponseCategory.provisional p w h f = absurd (f refl)
  final_closes c t ResponseCategory.success p w h f =
      rw h (IsClosed-handle_success_on_invite c t p w h)
  final_closes c t _ p w h f = rw h (IsClosed-handle_non_success_on_invite c t p w h)

  -- After an INVITE transaction, in whatever state, has been handed a response that is not
  -- provisional, each further response handed to it changes nothing.
  pub handle_response_final :
      (c t : ℕ) (p q : SipPacket A) (w : World A)
      → (w.transactions t).id.method ≡ RequestMethod.invite
      → response_category p.response_code ≢ ResponseCategory.provisional
      → handle_response c t q (handle_response c t p w) ≡ handle_response c t p w
  unfolding handle_response
  handle_response_final c t p q w h f =
      closed_ignores c t (response_category q.response_code) q _
        (final_closes c t (response_category p.response_code) p w h f)

  -- What `finish_transaction` leaves alone.
  finish_frame :
      (c t : ℕ) (p : SipPacket A) (w : World A) (d : ℕ)
      → (((finish_transaction c t p w).calls d).local_sinks ≡ (w.calls d).local_sinks)
        × ((finish_transaction c t p w).rtp_sink_map ≡ w.rtp_sink_map)
        × ((finish_transaction c t p w).call_map ≡ w.call_map)
        × ((finish_transaction c t p w).decode_queue ≡ w.decode_queue)
  unfolding finish_transaction set_state set_final_response create_and_push_event del_transaction
  finish_frame c t p w d = (ground arith, ground arith, ground arith, ground arith)

  unregister_frame :
      (m : Map (SocketAddress A) ℕ) (w : World A)
      → ((unregister_each m w).call_map ≡ w.call_map)
        × ((unregister_each m w).decode_queue ≡ w.decode_queue)
  unfolding unregister_each
  unregister_frame [] w = (refl, refl)
  unregister_frame ((a, s) ∷ m) w = unregister_frame m _

  -- The call is queued and out of the call map, and its sockets, no others, are unregistered.
  abbrev pub HandedOver : ℕ → SipPacket A → World A → World A → Type 0
  HandedOver c p w w' =
      (w'.decode_queue ≡ w.decode_queue ++ c ∷ [])
      × ((i : String)
          → FriendlyMap.find i w'.call_map
            ≡ (if same p.call_id i then none else FriendlyMap.find i w.call_map))
      × ((a : SocketAddress A)
          → registered w' a
            ≡ (if is_some (Map.find a (w.calls c).local_sinks) then none else registered w a))
      × (w'.curr_call ≡ none)

  HandedOver-prepare_call_to_decode :
      (c : ℕ) (p : SipPacket A) (w v : World A)
      → (v.calls c).local_sinks ≡ (w.calls c).local_sinks
      → v.rtp_sink_map ≡ w.rtp_sink_map
      → v.call_map ≡ w.call_map
      → v.decode_queue ≡ w.decode_queue
      → HandedOver c p w (prepare_call_to_decode c p.call_id v)
  unfolding prepare_call_to_decode unregister_rtp_sinks FriendlyMap.erase FriendlyMap.find
  HandedOver-prepare_call_to_decode c p w v l g m q =
      let frame = unregister_frame (v.calls c).local_sinks v in
      (
        ap (λ x. x ++ c ∷ []) (frame.1 ∙ q),
        (λ i.
            ap (λ x. Map.find i (Map.erase p.call_id x.entries)) (frame.0 ∙ m)
            ∙ find-erase p.call_id i w.call_map.entries),
        (λ a. ground (
          arith,
          registered-unregister_each (v.calls c).local_sinks v a,
          ap (λ x. FriendlyMap.find a x) g,
          ap (λ x. Map.find a x) l,
        )),
        refl,
      )

  HandedOver-handle_response_on_bye :
      (c t : ℕ) (p : SipPacket A) (w : World A)
      → match_state other_pending (w.transactions t).state ≡ true
      → HandedOver c p w (handle_response_on_bye c t p w)
  unfolding handle_response_on_bye
  HandedOver-handle_response_on_bye c t p w s =
      let frame = finish_frame c t p w c in
      rw s (
        HandedOver-prepare_call_to_decode c p w (finish_transaction c t p w) frame.0 frame.1 frame.2
          frame.3)

  HandedOver-dispatch_response :
      (c t : ℕ) (r : ResponseCategory) (p : SipPacket A) (w : World A)
      → r ≢ ResponseCategory.provisional
      → match_state other_pending (w.transactions t).state ≡ true
      → HandedOver c p w (dispatch_response r RequestMethod.bye c t p w)
  unfolding dispatch_response handle_success handle_non_success
  HandedOver-dispatch_response c t ResponseCategory.provisional p w f s = absurd (f refl)
  HandedOver-dispatch_response c t ResponseCategory.success p w f s =
      HandedOver-handle_response_on_bye c t p w s
  HandedOver-dispatch_response c t _ p w f s = HandedOver-handle_response_on_bye c t p w s

  -- The final response to a BYE that is still open, in the call `c`: the call goes to the end of the
  -- decode queue, the packet's call id and no other goes out of the call map, and the call's
  -- sockets, and no others, leave the global sink map.
  pub handle_response_bye :
      (c t : ℕ) (p : SipPacket A) (w : World A)
      → (w.transactions t).id.method ≡ RequestMethod.bye
      → response_category p.response_code ≢ ResponseCategory.provisional
      → match_state other_pending (w.transactions t).state ≡ true
      → HandedOver c p w (handle_response c t p w)
  unfolding handle_response
  handle_response_bye c t p w h f s =
      rw h (HandedOver-dispatch_response c t (response_category p.response_code) p w f s)
