-- ===== src/Sip/Custody.antt =====
-- Who holds the calls of src/sip/SipProcessor.cpp: the `CallMap`, the `CallDecodeQueue`, and the
-- next free reference. Which primitive leaves these alone, and what the others do to them.
use callx.Container.FriendlyMap.{FriendlyMap}
use callx.Container.Map.{Map}
use callx.Network.SocketAddress.{SocketAddress, socket_key}
use callx.Prelude.{ℕ, ◌≡◌, refl, ◌∙◌, List, [], ◌∷◌, Key, String, string_key, arith, Bool}
use callx.Audio.RtpSink.{RtpSinkStatus}
use callx.Sip.Events.{create_and_push_event}
use callx.Sip.Sinks.{
  process_sdp, confirm_sink, confirm_each, confirm_rtp_sinks, annul_sink, annul_each,
  annul_rtp_sinks, unregister_each, unregister_rtp_sinks,
}
use callx.Sip.Types.{SipPacket, DialogState, TransactionPhase, TransactionId}
use callx.Sip.World.{
  World, set_dialog_state, set_reinvite_flag, set_state, set_final_response, set_cancel_flag,
  set_ack_flag, insert_transaction, del_transaction, update_activity_ts, update_activity_clockstamp,
}

pub record Custody : Type 0 where
  pub call_map : FriendlyMap String ℕ
  pub decode_queue : List ℕ
  pub next_call : ℕ

module _ {A : Type 0} where
  abbrev pub custody : World A → Custody
  custody w = record {
    call_map = w.call_map;
    decode_queue = w.decode_queue;
    next_call = w.next_call;
  }

  pub custody-set_dialog_state :
      (c : ℕ) (s : DialogState) (w : World A) → custody (set_dialog_state c s w) ≡ custody w
  unfolding set_dialog_state
  custody-set_dialog_state c s w = refl

  pub custody-set_reinvite_flag :
      (c : ℕ) (b : Bool) (w : World A) → custody (set_reinvite_flag c b w) ≡ custody w
  unfolding set_reinvite_flag
  custody-set_reinvite_flag c b w = refl

  pub custody-set_state :
      (t : ℕ) (x y : TransactionPhase) (w : World A) → custody (set_state t x y w) ≡ custody w
  unfolding set_state
  custody-set_state t x y w = refl

  pub custody-set_final_response :
      (t n : ℕ) (r : String) (w : World A) → custody (set_final_response t n r w) ≡ custody w
  unfolding set_final_response
  custody-set_final_response t n r w = refl

  pub custody-set_cancel_flag : (t : ℕ) (w : World A) → custody (set_cancel_flag t w) ≡ custody w
  unfolding set_cancel_flag
  custody-set_cancel_flag t w = refl

  pub custody-set_ack_flag : (t : ℕ) (w : World A) → custody (set_ack_flag t w) ≡ custody w
  unfolding set_ack_flag
  custody-set_ack_flag t w = refl

  pub custody-insert_transaction :
      (c t : ℕ) (w : World A) → custody (insert_transaction c t w) ≡ custody w
  unfolding insert_transaction
  custody-insert_transaction c t w = refl

  pub custody-del_transaction :
      (c : ℕ) (i : TransactionId) (w : World A) → custody (del_transaction c i w) ≡ custody w
  unfolding del_transaction
  custody-del_transaction c i w = refl

  pub custody-update_activity_ts :
      (c : ℕ) (w : World A) → custody (update_activity_ts c w) ≡ custody w
  unfolding update_activity_ts
  custody-update_activity_ts c w = refl

  pub custody-update_activity_clockstamp :
      (t : ℕ) (w : World A) → custody (update_activity_clockstamp t w) ≡ custody w
  unfolding update_activity_clockstamp
  custody-update_activity_clockstamp t w = refl

  pub custody-create_and_push_event :
      (t : ℕ) (w : World A) → custody (create_and_push_event t w) ≡ custody w
  unfolding create_and_push_event
  custody-create_and_push_event t w = ground arith

module _ {A : Type 0} ⦃k : Key A⦄ where
  pub custody-process_sdp :
      (c : ℕ) (p : SipPacket A) (w : World A) → custody (process_sdp c p w) ≡ custody w
  unfolding process_sdp
  custody-process_sdp c p w = ground arith

  custody-confirm_sink :
      (a : SocketAddress A) (s : ℕ) (x : RtpSinkStatus) (w : World A)
      → custody (confirm_sink a s x w) ≡ custody w
  unfolding confirm_sink
  custody-confirm_sink a s RtpSinkStatus.init w = refl
  custody-confirm_sink a s _ w = refl

  custody-confirm_each :
      (m : Map (SocketAddress A) ℕ) (w : World A) → custody (confirm_each m w) ≡ custody w
  unfolding confirm_each
  custody-confirm_each [] w = refl
  custody-confirm_each ((a, s) ∷ m) w =
      custody-confirm_each m _ ∙ custody-confirm_sink a s (w.sinks s).status w

  pub custody-confirm_rtp_sinks :
      (c : ℕ) (w : World A) → custody (confirm_rtp_sinks c w) ≡ custody w
  unfolding confirm_rtp_sinks
  custody-confirm_rtp_sinks c w = custody-confirm_each (w.calls c).local_sinks w

  custody-annul_sink :
      (a : SocketAddress A) (s : ℕ) (x : RtpSinkStatus) (w : World A)
      → custody (annul_sink a s x w) ≡ custody w
  unfolding annul_sink
  custody-annul_sink a s RtpSinkStatus.init w = refl
  custody-annul_sink a s _ w = refl

  custody-annul_each :
      (m : Map (SocketAddress A) ℕ) (w : World A) → custody (annul_each m w) ≡ custody w
  unfolding annul_each
  custody-annul_each [] w = refl
  custody-annul_each ((a, s) ∷ m) w =
      custody-annul_each m _ ∙ custody-annul_sink a s (w.sinks s).status w

  pub custody-annul_rtp_sinks : (c : ℕ) (w : World A) → custody (annul_rtp_sinks c w) ≡ custody w
  unfolding annul_rtp_sinks
  custody-annul_rtp_sinks c w = custody-annul_each (w.calls c).local_sinks w

  custody-unregister_each :
      (m : Map (SocketAddress A) ℕ) (w : World A) → custody (unregister_each m w) ≡ custody w
  unfolding unregister_each
  custody-unregister_each [] w = refl
  custody-unregister_each ((a, s) ∷ m) w = custody-unregister_each m _

  pub custody-unregister_rtp_sinks :
      (c : ℕ) (w : World A) → custody (unregister_rtp_sinks c w) ≡ custody w
  unfolding unregister_rtp_sinks
  custody-unregister_rtp_sinks c w = custody-unregister_each (w.calls c).local_sinks w

pub ruleset custody_laws = (
  custody-set_dialog_state, custody-set_reinvite_flag, custody-set_state,
  custody-set_final_response, custody-set_cancel_flag, custody-set_ack_flag,
  custody-insert_transaction, custody-del_transaction, custody-update_activity_ts,
  custody-update_activity_clockstamp, custody-create_and_push_event, custody-process_sdp,
  custody-confirm_rtp_sinks, custody-annul_rtp_sinks, custody-unregister_rtp_sinks,
)
