-- ===== src/Examples/Parsing.antt =====
-- Concrete messages for the parser, with tables of matches for the patterns and numbers for the IP
-- addresses.
use callx.Container.Map.{Map, find}
use callx.Container.Multimap.{add, lower_bound}
use callx.Examples.Data.{nat_key}
use callx.Network.SocketAddress.{tp_udp, tp_undefined}
use callx.Prelude.{
  ℕ, Bool-cases, is_some, ◌≡◌, ◌↔◌, ◌⊎◌, refl, inl, inr, true, false, List, [], ◌∷◌, Option, none,
  some, String, arith, same, before, string_key, bytes_key, bytes_equal, bytes_equal_iff, codes,
  c_str, if◌then◌else◌, Bytes, to_upper, number_from, All,
}
use callx.Sip.Parser.Fields.{
  parse_sip, read_fields, read_from, read_to, read_call_id, read_cseq, read_via, read_content_type,
  cseq_number,
}
use callx.Sip.Parser.Grammar.{Grammar}
use callx.Sip.Parser.Header.{header_value}
use callx.Sip.Parser.Message.{
  Message, nobody, new_message, parse_start_line, parse_lines, parse_line, parse_sip_line,
  parse_sdp_line, request_to_enum, transport_proto,
}
use callx.Sip.Parser.Outcomes.{parse-accepted_iff, parse-thrown, IsReadable}
use callx.Sip.Parser.Reading.{Reads, parse-Reads}
use callx.Sip.Parser.Sdp.{
  accepted, thrown, parse, parse_sdp, parse_sdp_fields, parse_sdp_field, take_address, take_port,
  connection_address, to_port,
}
use callx.Sip.Parser.Via.{parse_sip-branch}
use callx.Sip.Types.{MessageType, RequestMethod}
use callx.Examples.Data.{alice}

abbrev invite_line : String
invite_line = "INVITE sip:bob SIP/2.0"

abbrev invite_rest : List String
invite_rest =
    "Call-ID: c1" ∷ "From: a" ∷ "CSeq: 1 INVITE" ∷ "Warning: w" ∷ "Content-Type: s" ∷ "" ∷ "c=7"
    ∷ "m=4000" ∷ []

abbrev short_rest : List String
short_rest = "Content-Type: s" ∷ "" ∷ "c=short" ∷ []

abbrev messages : Map String (List String)
messages =
    ("invite", invite_line ∷ invite_rest)
    ∷ ("short", invite_line ∷ short_rest)
    ∷ ("no via", invite_line ∷ "Warning: w" ∷ [])
    ∷ []

abbrev lines_of : Option (List String) → List String
lines_of none = []
lines_of (some lines) = lines

abbrev header_fields : Map String (String × String)
header_fields =
    ("Call-ID: c1", ("Call-ID", "c1"))
    ∷ ("From: a", ("From", "a"))
    ∷ ("CSeq: 1 INVITE", ("CSeq", "1 INVITE"))
    ∷ ("Warning: w", ("Warning", "w"))
    ∷ ("Content-Type: s", ("Content-Type", "application/sdp"))
    ∷ []

abbrev body_fields : Map String (String × String)
body_fields =
    ("c=7", ("c", "IN IP4 7"))
    ∷ ("m=4000", ("m", "audio 4000 RTP/AVP 8"))
    ∷ ("c=short", ("c", "IN IP4"))
    ∷ []

abbrev pub table : Grammar ℕ
table = record {
  split_lines = λ raw. lines_of (find raw messages);
  request = λ line. if same line invite_line then some ("invite", "sip:bob") else none;
  response = λ line. if same line "SIP/2.0 200 OK" then some ("200", "OK") else none;
  sip_field = λ line. find line header_fields;
  sdp_field = λ line. find line body_fields;
  from_and_to = λ value. if same value "a" then alice else nobody;
  cseq = λ value. if same value "1 INVITE" then some ("1", "INVITE") else none;
  via = λ value. if same value "w" then some ("UDP", "host", "w1") else none;
  media = λ value. if same value "audio 4000 RTP/AVP 8" then some "4000" else none;
  from_string = λ text. if bytes_equal text (codes "7") then some 7 else none;
  no_address = 0;
}

abbrev pub invite_message : Message ℕ
invite_message = record {
  packet = record {
    message_type = MessageType.request;
    request_method = RequestMethod.invite;
    response_code = 0;
    response_reason = "";
    call_id = "c1";
    from = alice;
    to = nobody;
    cseq_method = RequestMethod.invite;
    cseq_num = 1;
    branch = "w1";
    sent_by = "host";
    has_sdp_payload = true;
    sdp_media_socket = record { ip = 7; port = 4000; proto = tp_udp };
  };
  request_uri = "sip:bob";
  sent_by_protocol = tp_udp;
  sip_field_map =
      (codes "CALL-ID", "c1")
      ∷ (codes "CONTENT-TYPE", "application/sdp")
      ∷ (codes "CSEQ", "1 INVITE")
      ∷ (codes "FROM", "a")
      ∷ (codes "WARNING", "w")
      ∷ [];
  sdp_field_map = (codes "c", "IN IP4 7") ∷ (codes "m", "audio 4000 RTP/AVP 8") ∷ [];
}

pub parse_invite : parse table "invite" ≡ accepted invite_message
unfolding parse parse_sip new_message parse_start_line parse_lines parse_line parse_sip_line
    parse_sdp_line request_to_enum transport_proto read_fields read_from read_to read_call_id
    read_cseq read_via read_content_type cseq_number parse_sdp parse_sdp_fields parse_sdp_field
    take_address take_port connection_address to_port find add lower_bound c_str to_upper
    number_from
parse_invite = refl

parse-Reads_example : Reads table invite_line invite_rest invite_message
unfolding find
parse-Reads_example =
    parse-Reads table "invite" invite_line invite_rest invite_message refl parse_invite

parse-accepted_iff_example : ((m : Message ℕ) × (parse table "invite" ≡ accepted m)) ↔ (
    (m : Message ℕ) × (parse_sip table "invite" ≡ some m)
    × (m.packet.has_sdp_payload ≡ true → All (IsReadable table) m.sdp_field_map))
parse-accepted_iff_example = parse-accepted_iff table "invite"

abbrev short_message : Message ℕ
short_message = record invite_message {
  packet = record invite_message.packet {
    call_id = "";
    from = nobody;
    cseq_method = RequestMethod.undefined;
    cseq_num = 0;
    branch = "";
    sent_by = "";
    sdp_media_socket = record { ip = 0; port = 0; proto = tp_undefined };
  };
  sent_by_protocol = tp_undefined;
  sip_field_map = (codes "CONTENT-TYPE", "application/sdp") ∷ [];
  sdp_field_map = (codes "c", "IN IP4") ∷ [];
}

parse_short : parse_sip table "short" ≡ some short_message
unfolding parse_sip new_message parse_start_line parse_lines parse_line parse_sip_line
    parse_sdp_line request_to_enum read_fields read_from read_to read_call_id read_cseq read_via
    read_content_type find add lower_bound c_str to_upper
parse_short = refl

parse-thrown_example : parse table "short" ≡ thrown
parse-thrown_example =
    parse-thrown table "short" short_message [] [] (codes "c") "IN IP4" parse_short refl refl tt
      refl (inl (omega arith))

abbrev no_via_message : Message ℕ
no_via_message = record short_message {
  packet = record short_message.packet { branch = "w1"; sent_by = "host"; has_sdp_payload = false };
  sent_by_protocol = tp_udp;
  sip_field_map = (codes "WARNING", "w") ∷ [];
  sdp_field_map = [];
}

parse_no_via : parse_sip table "no via" ≡ some no_via_message
unfolding parse_sip new_message parse_start_line parse_lines parse_line parse_sip_line
    request_to_enum transport_proto read_fields read_from read_to read_call_id read_cseq read_via
    read_content_type find add lower_bound c_str to_upper
parse_no_via = refl

least_name :
    (c : Bytes)
    → is_some (header_value table c ("Warning: w" ∷ [])) ≡ true
    → (before c (codes "VIA") ≡ true) ⊎ (before c (codes "WARNING") ≡ false)
unfolding find c_str to_upper
least_name c h = elim (Bool-cases (bytes_equal (codes "WARNING") c)) [
  | inl e ↦ rw (← (bytes_equal_iff (codes "WARNING") c).0 e) (inr refl)
  | inr e ↦ ground arith
]

parse_sip-branch_example : no_via_message.packet.branch ≡ "w1"
unfolding find c_str to_upper
parse_sip-branch_example =
    parse_sip-branch table "no via" invite_line ("Warning: w" ∷ []) no_via_message (codes "WARNING")
      "w" refl parse_no_via refl least_name refl
