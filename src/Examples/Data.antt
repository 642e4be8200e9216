-- ===== src/Examples/Data.antt =====
-- Concrete packets and worlds, with numbers for the IP addresses.
use callx.Audio.RtpSink.{new_sink}
use callx.Network.SocketAddress.{SocketAddress, tp_udp}
use callx.Prelude.{ℕ, Key, ltb, ◌==◌, ==_iff, [], ◌∷◌, Bool, true, false, none, some, String}
use callx.Sip.Processor.{Arrival}
use callx.Sip.Types.{
  SipFromTo, SipPacket, MessageType, RequestMethod, DialogState, TransactionPhase, states,
}
use callx.Sip.World.{World, Clocks, Call, Transaction, new_call, new_transaction}

instance abbrev pub nat_key : Key ℕ
nat_key = record { beq = ◌==◌; less = ltb; beq_iff = ==_iff }

abbrev pub noon : Clocks
noon = record { system = 1000000; steady = 5000 }

abbrev pub alice : SipFromTo
alice = record { tag = "a1"; address = "alice@example.org"; displayname = "Alice" }

abbrev pub bob : SipFromTo
bob = record { tag = "b1"; address = "bob@example.org"; displayname = "Bob" }

abbrev pub media : SocketAddress ℕ
media = record { ip = 7; port = 4000; proto = tp_udp }

abbrev pub request : RequestMethod → String → SipPacket ℕ
request method branch = record {
  message_type = MessageType.request;
  request_method = method;
  response_code = 0;
  response_reason = "";
  call_id = "call";
  from = alice;
  to = bob;
  cseq_method = method;
  cseq_num = 1;
  branch = branch;
  sent_by = "host";
  has_sdp_payload = false;
  sdp_media_socket = media;
}

abbrev pub response : ℕ → RequestMethod → String → SipPacket ℕ
response code method branch = record (request method branch) {
  message_type = MessageType.response;
  response_code = code;
  response_reason = "";
}

abbrev pub invite_packet : SipPacket ℕ
invite_packet = record (request RequestMethod.invite "i1") { has_sdp_payload = true }

abbrev pub arrived : SipPacket ℕ → Arrival ℕ
arrived p = record { at = noon; parsed = some p }

abbrev pub empty_world : World ℕ
empty_world = record {
  now = noon;
  record_if_incident_only = false;
  calls = λ c. new_call noon "";
  next_call = 0;
  transactions = λ t. new_transaction noon 0 invite_packet;
  next_transaction = 0;
  sinks = λ s. new_sink 0 true;
  next_sink = 0;
  call_map = record { entries = []; size_max = 0 };
  rtp_sink_map = record { entries = []; size_max = 0 };
  decode_queue = [];
  event_map = record { entries = []; size_max = 0 };
  incident_map = record { entries = []; size_max = 0 };
  curr_call = none;
}

-- One call, in the map under its id, with one sink.
abbrev pub the_call : DialogState → Bool → Call ℕ
the_call state reinvite = record {
  creation_ts = 0;
  creation_ts_steady = 0;
  activity_ts = 0;
  transactions = [];
  local_sinks = (media, 0) ∷ [];
  dialog = record { state = state; call_id = "call"; caller = alice; callee = bob };
  reinvite_flag = reinvite;
  sinks_activated = true;
}

abbrev pub in_call : DialogState → Bool → World ℕ
in_call state reinvite = record empty_world {
  calls = λ c. the_call state reinvite;
  next_call = 1;
  next_sink = 1;
  call_map = record { entries = ("call", 0) ∷ []; size_max = 1 };
  rtp_sink_map = record { entries = (media, 0) ∷ []; size_max = 1 };
}

abbrev pub open_transaction : RequestMethod → TransactionPhase → Transaction
open_transaction method x = record {
  creation_ts = 0;
  activity_ts = 0;
  call = 0;
  initiator = alice;
  sent_by = "host";
  cseq_num = 1;
  id = record { branch = "i1"; method = method };
  state = states x x;
  final_code = 0;
  final_reason = "";
  cancel_flag = false;
  ack_flag = false;
}

abbrev pub with_transaction : RequestMethod → TransactionPhase → World ℕ
with_transaction method x = record (in_call DialogState.confirmed false) {
  transactions = λ t. open_transaction method x;
  next_transaction = 1;
}
