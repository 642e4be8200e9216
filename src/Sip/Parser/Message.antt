-- ===== src/Sip/Parser/Message.antt =====
-- src/sip/SipPacket.cpp: the object under construction, the start line and the loop over the lines.
use callx.Container.Map.{Map}
use callx.Container.Multimap.{add}
use callx.Network.SocketAddress.{tp_udp, tp_tcp, tp_undefined}
use callx.Prelude.{
  ℕ, Bool, false, ◌||◌, List, [], ◌∷◌, none, some, String, if◌then◌else◌, same, string_key, map,
  codes, c_str, to_upper, Bytes, bytes_key, bytes_equal, number_from,
}
use callx.Sip.Parser.Grammar.{Grammar}
use callx.Sip.Types.{SipFromTo, SipPacket, MessageType, RequestMethod}

-- A `SipPacket` with the members that only the parser reads or that nobody asks for.
pub record Message (A : Type 0) : Type 0 where
  pub packet : SipPacket A
  pub request_uri : String
  pub sent_by_protocol : ℕ
  pub sip_field_map : Map Bytes String
  pub sdp_field_map : Map Bytes String

abbrev pub nobody : SipFromTo
nobody = record { tag = ""; address = ""; displayname = "" }

-- `transform(.., ::toupper)`
abbrev pub upper : String → Bytes
upper s = map to_upper (codes s)

abbrev pub is_empty_line : String → Bool
is_empty_line line = same line ""

-- `requestToEnum`
unfoldable pub request_to_enum : String → RequestMethod
request_to_enum request =
    let r = upper request in
    if bytes_equal r (codes "INVITE")
    then RequestMethod.invite
    else if bytes_equal r (codes "ACK")
    then RequestMethod.ack
    else if bytes_equal r (codes "BYE")
    then RequestMethod.bye
    else if bytes_equal r (codes "CANCEL")
    then RequestMethod.cancel
    else if bytes_equal r (codes "REGISTER")
    then RequestMethod.register
    else if bytes_equal r (codes "OPTIONS")
    then RequestMethod.options
    else if bytes_equal r (codes "INFO")
    then RequestMethod.info
    else RequestMethod.undefined

-- `transportProtoStringToEnum` of sip.hpp
unfoldable pub transport_proto : String → ℕ
transport_proto s = if same s "UDP" then tp_udp else if same s "TCP" then tp_tcp else tp_undefined

module _ {A : Type 0} (g : Grammar A) where
  -- The constructor.
  unfoldable pub new_message : Message A
  new_message = record {
    packet = record {
      message_type = MessageType.malformed;
      request_method = RequestMethod.undefined;
      response_code = 0;
      response_reason = "";
      call_id = "";
      from = nobody;
      to = nobody;
      cseq_method = RequestMethod.undefined;
      cseq_num = 0;
      branch = "";
      sent_by = "";
      has_sdp_payload = false;
      sdp_media_socket = record { ip = g.no_address; port = 0; proto = tp_undefined };
    };
    request_uri = "";
    sent_by_protocol = tp_undefined;
    sip_field_map = [];
    sdp_field_map = [];
  }

  -- The start line: a request, else a response, else the message stays MALFORMED.
  unfoldable pub parse_start_line : String → Message A → Message A
  parse_start_line line m = elim (g.request (c_str line)) [
    | some (method, uri) ↦ record m {
      packet = record m.packet {
        message_type = MessageType.request;
        request_method = request_to_enum method;
      };
      request_uri = uri;
    }
    | none ↦ elim (g.response (c_str line)) [
      | some (code, reason) ↦ record m {
        packet = record m.packet {
          message_type = MessageType.response;
          response_code = number_from 0 (codes code);
          response_reason = reason;
        };
      }
      | none ↦ m
    ]
  ]

  -- A line of the header, whose field names are taken in upper case.
  unfoldable pub parse_sip_line : String → Message A → Message A
  parse_sip_line line m = elim (g.sip_field (c_str line)) [
    | none ↦ m
    | some (name, value) ↦ record m { sip_field_map = add (upper name) value m.sip_field_map }
  ]

  -- A line of the body.
  unfoldable pub parse_sdp_line : String → Message A → Message A
  parse_sdp_line line m = elim (g.sdp_field (c_str line)) [
    | none ↦ m
    | some (name, value) ↦ record m { sdp_field_map = add (codes name) value m.sdp_field_map }
  ]

  unfoldable pub parse_line : Bool → String → Message A → Message A
  parse_line in_body line m =
      if is_empty_line line
      then m
      else if in_body
      then parse_sdp_line line m
      else parse_sip_line line m

  -- The loop over the lines after the first. An empty line switches to the body for good.
  unfoldable pub parse_lines : List String → Bool → Message A → Message A
  parse_lines [] in_body m = m
  parse_lines (line ∷ rest) in_body m =
      parse_lines rest (in_body || is_empty_line line) (parse_line in_body line m)
