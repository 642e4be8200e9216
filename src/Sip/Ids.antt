-- ===== src/Sip/Ids.antt =====
-- The id of a call of src/sip/Call.hpp, through the primitives of the processor.
use callx.Audio.RtpSink.{RtpSinkStatus}
use callx.Container.Map.{Map}
use callx.Network.SocketAddress.{SocketAddress, socket_key}
use callx.Prelude.{ℕ, ◌≡◌, refl, ◌∙◌, [], ◌∷◌, Bool, Key, String, arith}
use callx.Sip.Events.{create_and_push_event}
use callx.Sip.Responses.{learn_callee}
use callx.Sip.Sinks.{
  process_sdp, confirm_sink, confirm_each, confirm_rtp_sinks, annul_sink, annul_each,
  annul_rtp_sinks, unregister_each, unregister_rtp_sinks,
}
use callx.Sip.Types.{SipPacket, DialogState, TransactionPhase, TransactionId}
use callx.Sip.World.{
  World, set_dialog_state, set_reinvite_flag, set_state, set_final_response, set_cancel_flag,
  set_ack_flag, insert_transaction, del_transaction, update_activity_ts, update_activity_clockstamp,
}

module _ {A : Type 0} where
  abbrev pub call_id_of : World A → ℕ → String
  call_id_of w d = (w.calls d).dialog.call_id

  pub call_id-set_dialog_state :
      (c : ℕ) (s : DialogState) (w : World A) (d : ℕ)
      → call_id_of (set_dialog_state c s w) d ≡ call_id_of w d
  unfolding set_dialog_state
  call_id-set_dialog_state c s w d = ground arith

  pub call_id-set_reinvite_flag :
      (c : ℕ) (b : Bool) (w : World A) (d : ℕ)
      → call_id_of (set_reinvite_flag c b w) d ≡ call_id_of w d
  unfolding set_reinvite_flag
  call_id-set_reinvite_flag c b w d = ground arith

  pub call_id-set_state :
      (t : ℕ) (x y : TransactionPhase) (w : World A) (d : ℕ)
      → call_id_of (set_state t x y w) d ≡ call_id_of w d
  unfolding set_state
  call_id-set_state t x y w d = refl

  pub call_id-set_final_response :
      (t n : ℕ) (r : String) (w : World A) (d : ℕ)
      → call_id_of (set_final_response t n r w) d ≡ call_id_of w d
  unfolding set_final_response
  call_id-set_final_response t n r w d = refl

  pub call_id-set_cancel_flag :
      (t : ℕ) (w : World A) (d : ℕ) → call_id_of (set_cancel_flag t w) d ≡ call_id_of w d
  unfolding set_cancel_flag
  call_id-set_cancel_flag t w d = refl

  pub call_id-set_ack_flag :
      (t : ℕ) (w : World A) (d : ℕ) → call_id_of (set_ack_flag t w) d ≡ call_id_of w d
  unfolding set_ack_flag
  call_id-set_ack_flag t w d = refl

  pub call_id-insert_transaction :
      (c t : ℕ) (w : World A) (d : ℕ) → call_id_of (insert_transaction c t w) d ≡ call_id_of w d
  unfolding insert_transaction
  call_id-insert_transaction c t w d = ground arith

  pub call_id-del_transaction :
      (c : ℕ) (i : TransactionId) (w : World A) (d : ℕ)
      → call_id_of (del_transaction c i w) d ≡ call_id_of w d
  unfolding del_transaction
  call_id-del_transaction c i w d = ground arith

  pub call_id-update_activity_ts :
      (c : ℕ) (w : World A) (d : ℕ) → call_id_of (update_activity_ts c w) d ≡ call_id_of w d
  unfolding update_activity_ts
  call_id-update_activity_ts c w d = ground arith

  pub call_id-update_activity_clockstamp :
      (t : ℕ) (w : World A) (d : ℕ) → call_id_of (update_activity_clockstamp t w) d ≡ call_id_of w d
  unfolding update_activity_clockstamp
  call_id-update_activity_clockstamp t w d = refl

  pub call_id-create_and_push_event :
      (t : ℕ) (w : World A) (d : ℕ) → call_id_of (create_and_push_event t w) d ≡ call_id_of w d
  unfolding create_and_push_event
  call_id-create_and_push_event t w d = ground arith

module _ {A : Type 0} ⦃k : Key A⦄ where
  pub call_id-learn_callee :
      (c : ℕ) (p : SipPacket A) (w : World A) (d : ℕ)
      → call_id_of (learn_callee c p w) d ≡ call_id_of w d
  unfolding learn_callee
  call_id-learn_callee c p w d = ground arith

  pub call_id-process_sdp :
      (c : ℕ) (p : SipPacket A) (w : World A) (d : ℕ)
      → call_id_of (process_sdp c p w) d ≡ call_id_of w d
  unfolding process_sdp
  call_id-process_sdp c p w d = ground arith

  call_id-confirm_sink :
      (a : SocketAddress A) (s : ℕ) (x : RtpSinkStatus) (w : World A) (d : ℕ)
      → call_id_of (confirm_sink a s x w) d ≡ call_id_of w d
  unfolding confirm_sink
  call_id-confirm_sink a s RtpSinkStatus.init w d = refl
  call_id-confirm_sink a s _ w d = refl

  call_id-confirm_each :
      (m : Map (SocketAddress A) ℕ) (w : World A) (d : ℕ)
      → call_id_of (confirm_each m w) d ≡ call_id_of w d
  unfolding confirm_each
  call_id-confirm_each [] w d = refl
  call_id-confirm_each ((a, s) ∷ m) w d =
      call_id-confirm_each m _ d ∙ call_id-confirm_sink a s (w.sinks s).status w d

  pub call_id-confirm_rtp_sinks :
      (c : ℕ) (w : World A) (d : ℕ) → call_id_of (confirm_rtp_sinks c w) d ≡ call_id_of w d
  unfolding confirm_rtp_sinks
  call_id-confirm_rtp_sinks c w d = call_id-confirm_each (w.calls c).local_sinks w d

  call_id-annul_sink :
      (a : SocketAddress A) (s : ℕ) (x : RtpSinkStatus) (w : World A) (d : ℕ)
      → call_id_of (annul_sink a s x w) d ≡ call_id_of w d
  unfolding annul_sink
  call_id-annul_sink a s RtpSinkStatus.init w d = refl
  call_id-annul_sink a s _ w d = refl

  call_id-annul_each :
      (m : Map (SocketAddress A) ℕ) (w : World A) (d : ℕ)
      → call_id_of (annul_each m w) d ≡ call_id_of w d
  unfolding annul_each
  call_id-annul_each [] w d = refl
  call_id-annul_each ((a, s) ∷ m) w d =
      call_id-annul_each m _ d ∙ call_id-annul_sink a s (w.sinks s).status w d

  pub call_id-annul_rtp_sinks :
      (c : ℕ) (w : World A) (d : ℕ) → call_id_of (annul_rtp_sinks c w) d ≡ call_id_of w d
  unfolding annul_rtp_sinks
  call_id-annul_rtp_sinks c w d = call_id-annul_each (w.calls c).local_sinks w d

  call_id-unregister_each :
      (m : Map (SocketAddress A) ℕ) (w : World A) (d : ℕ)
      → call_id_of (unregister_each m w) d ≡ call_id_of w d
  unfolding unregister_each
  call_id-unregister_each [] w d = refl
  call_id-unregister_each ((a, s) ∷ m) w d = call_id-unregister_each m _ d

  pub call_id-unregister_rtp_sinks :
      (c : ℕ) (w : World A) (d : ℕ) → call_id_of (unregister_rtp_sinks c w) d ≡ call_id_of w d
  unfolding unregister_rtp_sinks
  call_id-unregister_rtp_sinks c w d = call_id-unregister_each (w.calls c).local_sinks w d

pub ruleset call_id_laws = (
  call_id-set_state, call_id-set_final_response, call_id-set_cancel_flag, call_id-set_ack_flag,
  call_id-insert_transaction, call_id-del_transaction, call_id-update_activity_ts,
  call_id-update_activity_clockstamp, call_id-create_and_push_event, call_id-learn_callee,
  call_id-process_sdp, call_id-confirm_rtp_sinks, call_id-annul_rtp_sinks,
  call_id-unregister_rtp_sinks, call_id-set_dialog_state, call_id-set_reinvite_flag,
)
