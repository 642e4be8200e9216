-- ===== src/Sip/Dialogs.antt =====
-- The dialog state and the re-INVITE flag of a call of src/sip/Call.hpp, and what each primitive of
-- the processor does to them.
use callx.Audio.RtpSink.{RtpSinkStatus}
use callx.Container.Map.{Map}
use callx.Network.SocketAddress.{SocketAddress, socket_key}
use callx.Prelude.{ℕ, ◌≡◌, refl, ◌∙◌, [], ◌∷◌, Bool, Key, String, arith, if◌then◌else◌, ◌==◌}
use callx.Sip.Events.{create_and_push_event}
use callx.Sip.Responses.{learn_callee}
use callx.Sip.Sinks.{
  process_sdp, confirm_sink, confirm_each, confirm_rtp_sinks, annul_sink, annul_each,
  annul_rtp_sinks, unregister_each, unregister_rtp_sinks,
}
use callx.Sip.Types.{SipPacket, DialogState, TransactionPhase, TransactionId}
use callx.Sip.World.{
  World, set_dialog_state, set_reinvite_flag, set_state, set_final_response, set_cancel_flag,
  set_ack_flag, insert_transaction, del_transaction, update_activity_ts, update_activity_clockstamp,
}

pub record Phase : Type 0 where
  pub state : DialogState
  pub reinvite : Bool

module _ {A : Type 0} where
  abbrev pub phase : World A → ℕ → Phase
  phase w d = record { state = (w.calls d).dialog.state; reinvite = (w.calls d).reinvite_flag }

  pub phase-set_dialog_state :
      (c : ℕ) (s : DialogState) (w : World A) (d : ℕ)
      → phase (set_dialog_state c s w) d
        ≡ (if d == c then record (phase w d) { state = s } else phase w d)
  unfolding set_dialog_state
  phase-set_dialog_state c s w d = ground arith

  pub phase-set_reinvite_flag :
      (c : ℕ) (b : Bool) (w : World A) (d : ℕ)
      → phase (set_reinvite_flag c b w) d
        ≡ (if d == c then record (phase w d) { reinvite = b } else phase w d)
  unfolding set_reinvite_flag
  phase-set_reinvite_flag c b w d = ground arith

  pub phase-set_state :
      (t : ℕ) (x y : TransactionPhase) (w : World A) (d : ℕ)
      → phase (set_state t x y w) d ≡ phase w d
  unfolding set_state
  phase-set_state t x y w d = refl

  pub phase-set_final_response :
      (t n : ℕ) (r : String) (w : World A) (d : ℕ)
      → phase (set_final_response t n r w) d ≡ phase w d
  unfolding set_final_response
  phase-set_final_response t n r w d = refl

  pub phase-set_cancel_flag :
      (t : ℕ) (w : World A) (d : ℕ) → phase (set_cancel_flag t w) d ≡ phase w d
  unfolding set_cancel_flag
  phase-set_cancel_flag t w d = refl

  pub phase-set_ack_flag : (t : ℕ) (w : World A) (d : ℕ) → phase (set_ack_flag t w) d ≡ phase w d
  unfolding set_ack_flag
  phase-set_ack_flag t w d = refl

  pub phase-insert_transaction :
      (c t : ℕ) (w : World A) (d : ℕ) → phase (insert_transaction c t w) d ≡ phase w d
  unfolding insert_transaction
  phase-insert_transaction c t w d = ground arith

  pub phase-del_transaction :
      (c : ℕ) (i : TransactionId) (w : World A) (d : ℕ)
      → phase (del_transaction c i w) d ≡ phase w d
  unfolding del_transaction
  phase-del_transaction c i w d = ground arith

  pub phase-update_activity_ts :
      (c : ℕ) (w : World A) (d : ℕ) → phase (update_activity_ts c w) d ≡ phase w d
  unfolding update_activity_ts
  phase-update_activity_ts c w d = ground arith

  pub phase-update_activity_clockstamp :
      (t : ℕ) (w : World A) (d : ℕ) → phase (update_activity_clockstamp t w) d ≡ phase w d
  unfolding update_activity_clockstamp
  phase-update_activity_clockstamp t w d = refl

  pub phase-create_and_push_event :
      (t : ℕ) (w : World A) (d : ℕ) → phase (create_and_push_event t w) d ≡ phase w d
  unfolding create_and_push_event
  phase-create_and_push_event t w d = ground arith

module _ {A : Type 0} ⦃k : Key A⦄ where
  pub phase-learn_callee :
      (c : ℕ) (p : SipPacket A) (w : World A) (d : ℕ) → phase (learn_callee c p w) d ≡ phase w d
  unfolding learn_callee
  phase-learn_callee c p w d = ground arith

  pub phase-process_sdp :
      (c : ℕ) (p : SipPacket A) (w : World A) (d : ℕ) → phase (process_sdp c p w) d ≡ phase w d
  unfolding process_sdp
  phase-process_sdp c p w d = ground arith

  phase-confirm_sink :
      (a : SocketAddress A) (s : ℕ) (x : RtpSinkStatus) (w : World A) (d : ℕ)
      → phase (confirm_sink a s x w) d ≡ phase w d
  unfolding confirm_sink
  phase-confirm_sink a s RtpSinkStatus.init w d = refl
  phase-confirm_sink a s _ w d = refl

  phase-confirm_each :
      (m : Map (SocketAddress A) ℕ) (w : World A) (d : ℕ) → phase (confirm_each m w) d ≡ phase w d
  unfolding confirm_each
  phase-confirm_each [] w d = refl
  phase-confirm_each ((a, s) ∷ m) w d =
      phase-confirm_each m _ d ∙ phase-confirm_sink a s (w.sinks s).status w d

  pub phase-confirm_rtp_sinks :
      (c : ℕ) (w : World A) (d : ℕ) → phase (confirm_rtp_sinks c w) d ≡ phase w d
  unfolding confirm_rtp_sinks
  phase-confirm_rtp_sinks c w d = phase-confirm_each (w.calls c).local_sinks w d

  phase-annul_sink :
      (a : SocketAddress A) (s : ℕ) (x : RtpSinkStatus) (w : World A) (d : ℕ)
      → phase (annul_sink a s x w) d ≡ phase w d
  unfolding annul_sink
  phase-annul_sink a s RtpSinkStatus.init w d = refl
  phase-annul_sink a s _ w d = refl

  phase-annul_each :
      (m : Map (SocketAddress A) ℕ) (w : World A) (d : ℕ) → phase (annul_each m w) d ≡ phase w d
  unfolding annul_each
  phase-annul_each [] w d = refl
  phase-annul_each ((a, s) ∷ m) w d =
      phase-annul_each m _ d ∙ phase-annul_sink a s (w.sinks s).status w d

  pub phase-annul_rtp_sinks :
      (c : ℕ) (w : World A) (d : ℕ) → phase (annul_rtp_sinks c w) d ≡ phase w d
  unfolding annul_rtp_sinks
  phase-annul_rtp_sinks c w d = phase-annul_each (w.calls c).local_sinks w d

  phase-unregister_each :
      (m : Map (SocketAddress A) ℕ) (w : World A) (d : ℕ)
      → phase (unregister_each m w) d ≡ phase w d
  unfolding unregister_each
  phase-unregister_each [] w d = refl
  phase-unregister_each ((a, s) ∷ m) w d = phase-unregister_each m _ d

  pub phase-unregister_rtp_sinks :
      (c : ℕ) (w : World A) (d : ℕ) → phase (unregister_rtp_sinks c w) d ≡ phase w d
  unfolding unregister_rtp_sinks
  phase-unregister_rtp_sinks c w d = phase-unregister_each (w.calls c).local_sinks w d

-- The primitives that leave every call's phase alone.
pub ruleset phase_laws = (
  phase-set_state, phase-set_final_response, phase-set_cancel_flag, phase-set_ack_flag,
  phase-insert_transaction, phase-del_transaction, phase-update_activity_ts,
  phase-update_activity_clockstamp, phase-create_and_push_event, phase-learn_callee,
  phase-process_sdp, phase-confirm_rtp_sinks, phase-annul_rtp_sinks, phase-unregister_rtp_sinks,
  phase-set_dialog_state, phase-set_reinvite_flag,
)
