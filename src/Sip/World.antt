-- ===== src/Sip/World.antt =====
-- The objects that the SIP processor works on, and the primitive operations of src/sip/Call.{hpp,cpp}
-- and src/sip/Transaction.hpp. Calls, transactions and RTP sinks are shared objects: each kind has a
-- store, and maps and queues hold references. The clocks are two readings, set for each step.
use callx.Prelude.{
  ℕ, Bool, true, false, List, [], ◌∷◌, Option, none, some, if◌then◌else◌, Store, update, String,
  string_key,
}
use callx.Container.Map.{Map}
use callx.Container.Map
use callx.Container.FriendlyMap.{FriendlyMap}
use callx.Network.SocketAddress.{SocketAddress, socket_key}
use callx.Audio.RtpSink.{RtpSink}
use callx.Sba.Types.{EventMap, IncidentMap}
use callx.Sip.Types.{
  SipFromTo, SipPacket, RequestMethod, TransactionPhase, TransactionState, TransactionId, id_key,
  DialogState, states, is_method,
}

-- Milliseconds of the system clock and of the steady clock.
pub record Clocks : Type 0 where
  pub system : ℕ
  pub steady : ℕ

pub record Dialog : Type 0 where
  pub state : DialogState
  pub call_id : String
  pub caller : SipFromTo
  pub callee : SipFromTo

pub record Call (A : Type 0) : Type 0 where
  pub creation_ts : ℕ
  pub creation_ts_steady : ℕ
  pub activity_ts : ℕ
  pub transactions : Map TransactionId ℕ
  pub local_sinks : Map (SocketAddress A) ℕ
  pub dialog : Dialog
  pub reinvite_flag : Bool
  pub sinks_activated : Bool

pub record Transaction : Type 0 where
  pub creation_ts : ℕ
  pub activity_ts : ℕ
  pub call : ℕ
  pub initiator : SipFromTo
  pub sent_by : String
  pub cseq_num : ℕ
  pub id : TransactionId
  pub state : TransactionState
  pub final_code : ℕ
  pub final_reason : String
  pub cancel_flag : Bool
  pub ack_flag : Bool

pub record World (A : Type 0) : Type 0 where
  pub now : Clocks
  pub record_if_incident_only : Bool
  pub calls : Store (Call A)
  pub next_call : ℕ
  pub transactions : Store Transaction
  pub next_transaction : ℕ
  pub sinks : Store RtpSink
  pub next_sink : ℕ
  pub call_map : FriendlyMap String ℕ
  pub rtp_sink_map : FriendlyMap (SocketAddress A) ℕ
  pub decode_queue : List ℕ
  pub event_map : EventMap
  pub incident_map : IncidentMap
  pub curr_call : Option ℕ

abbrev pub no_one : SipFromTo
no_one = record { tag = ""; address = ""; displayname = "" }

-- The first INVITE in the order of the ids.
unfoldable pub first_invite : Map TransactionId ℕ → Option ℕ
first_invite [] = none
first_invite ((i, t) ∷ m) =
    if is_method i.method RequestMethod.invite then some t else first_invite m

module _ {A : Type 0} where
  -- `Call::Call`
  unfoldable pub new_call : Clocks → String → Call A
  new_call now call_id = record {
    creation_ts = now.system;
    creation_ts_steady = now.steady;
    activity_ts = now.steady;
    transactions = [];
    local_sinks = [];
    dialog = record {
      state = DialogState.undefined;
      call_id = call_id;
      caller = no_one;
      callee = no_one;
    };
    reinvite_flag = false;
    sinks_activated = true;
  }

  -- `Transaction::Transaction`
  unfoldable pub new_transaction : Clocks → ℕ → SipPacket A → Transaction
  new_transaction now call p = record {
    creation_ts = now.system;
    activity_ts = now.steady;
    call = call;
    initiator = p.from;
    sent_by = p.sent_by;
    cseq_num = p.cseq_num;
    id = record { branch = p.branch; method = p.cseq_method };
    state = states TransactionPhase.terminated TransactionPhase.terminated;
    final_code = 0;
    final_reason = "";
    cancel_flag = false;
    ack_flag = false;
  }

  -- A write through a reference.
  abbrev pub on_call : ℕ → (Call A → Call A) → World A → World A
  on_call c f w = record w { calls = update w.calls c (f (w.calls c)) }

  abbrev pub on_transaction : ℕ → (Transaction → Transaction) → World A → World A
  on_transaction t f w = record w { transactions = update w.transactions t (f (w.transactions t)) }

  abbrev pub on_sink : ℕ → (RtpSink → RtpSink) → World A → World A
  on_sink s f w = record w { sinks = update w.sinks s (f (w.sinks s)) }

  abbrev pub on_dialog : ℕ → (Dialog → Dialog) → World A → World A
  on_dialog c f = on_call c (λ x. record x { dialog = f x.dialog })

  abbrev pub dialog_of : World A → ℕ → Dialog
  dialog_of w c = (w.calls c).dialog

  unfoldable pub set_dialog_state : ℕ → DialogState → World A → World A
  set_dialog_state c s = on_dialog c (λ d. record d { state = s })

  unfoldable pub set_reinvite_flag : ℕ → Bool → World A → World A
  set_reinvite_flag c b = on_call c (λ x. record x { reinvite_flag = b })

  unfoldable pub set_flag_no_rtp : ℕ → World A → World A
  set_flag_no_rtp c = on_call c (λ x. record x { sinks_activated = false })

  unfoldable pub update_activity_ts : ℕ → World A → World A
  update_activity_ts c w = on_call c (λ x. record x { activity_ts = w.now.steady }) w

  unfoldable pub update_activity_clockstamp : ℕ → World A → World A
  update_activity_clockstamp t w = on_transaction t (λ x. record x { activity_ts = w.now.steady }) w

  unfoldable pub set_state : ℕ → TransactionPhase → TransactionPhase → World A → World A
  set_state t c s = on_transaction t (λ x. record x { state = states c s })

  -- `setFinalResponseCode` and `setFinalResponseReason`
  unfoldable pub set_final_response : ℕ → ℕ → String → World A → World A
  set_final_response t code reason =
      on_transaction t (λ x. record x { final_code = code; final_reason = reason })

  unfoldable pub set_cancel_flag : ℕ → World A → World A
  set_cancel_flag t = on_transaction t (λ x. record x { cancel_flag = true })

  unfoldable pub set_ack_flag : ℕ → World A → World A
  set_ack_flag t = on_transaction t (λ x. record x { ack_flag = true })

  unfoldable pub find_transaction : TransactionId → Call A → Option ℕ
  find_transaction i x = Map.find i x.transactions

  unfoldable pub find_invite_transaction : Call A → Option ℕ
  unfolding first_invite
  find_invite_transaction x = first_invite x.transactions

  unfoldable pub insert_transaction : ℕ → ℕ → World A → World A
  insert_transaction c t w =
      on_call c (λ x. record x { transactions = Map.insert (w.transactions t).id t x.transactions })
        w

  unfoldable pub del_transaction : ℕ → TransactionId → World A → World A
  del_transaction c i = on_call c (λ x. record x { transactions = Map.erase i x.transactions })
