-- ===== src/Sip/Parser/Fields.antt =====
-- `SipPacket::parseSip` and `SipPacket::parse` of src/sip/SipPacket.cpp: the fields of the header. An
-- exception that leaves `parse` is the verdict `thrown`.
use callx.Container.Map.{find}
use callx.Container.Multimap.{lower_bound}
use callx.Prelude.{
  ℕ, ◌%◌, ◌^◌, ◌-◌, Bool, false, List, [], ◌∷◌, Option, none, some, String, if◌then◌else◌, same,
  string_key, codes, c_str, bytes_key, number_from, ◌▷◌, ltb,
}
use callx.Sip.Parser.Grammar.{Grammar}
use callx.Sip.Parser.Message.{
  Message, new_message, parse_start_line, parse_lines, request_to_enum, transport_proto,
}

-- `strtoul` stops at the greatest 64-bit number; the member has 32 bits.
unfoldable pub cseq_number : String → ℕ
cseq_number digits =
    let n = number_from 0 (codes digits) in (if ltb n (2 ^ 64) then n else 2 ^ 64 - 1) % 2 ^ 32

abbrev pub is_sdp : Option String → Bool
is_sdp none = false
is_sdp (some value) = same value "application/sdp"

module _ {A : Type 0} (g : Grammar A) where
  abbrev pub sip_field : String → Message A → Option String
  sip_field name m = find (codes name) m.sip_field_map

  unfoldable pub read_from : Message A → Message A
  read_from m = elim (sip_field "FROM" m) [
    | none ↦ m
    | some value ↦ record m { packet = record m.packet { from = g.from_and_to (c_str value) } }
  ]

  unfoldable pub read_to : Message A → Message A
  read_to m = elim (sip_field "TO" m) [
    | none ↦ m
    | some value ↦ record m { packet = record m.packet { to = g.from_and_to (c_str value) } }
  ]

  unfoldable pub read_call_id : Message A → Message A
  read_call_id m = elim (sip_field "CALL-ID" m) [
    | none ↦ m
    | some value ↦ record m { packet = record m.packet { call_id = value } }
  ]

  abbrev set_cseq : Option (String × String) → Message A → Message A
  set_cseq none m = m
  set_cseq (some (number, method)) m = record m {
    packet = record m.packet {
      cseq_num = cseq_number number;
      cseq_method = request_to_enum method;
    };
  }

  unfoldable pub read_cseq : Message A → Message A
  read_cseq m = elim (sip_field "CSEQ" m) [
    | none ↦ m
    | some value ↦ set_cseq (g.cseq (c_str value)) m
  ]

  abbrev set_via : Option (String × String × String) → Message A → Message A
  set_via none m = m
  set_via (some (protocol, sent_by, branch)) m = record m {
    packet = record m.packet { sent_by = sent_by; branch = branch };
    sent_by_protocol = transport_proto protocol;
  }

  -- `lower_bound("VIA")` is the first field whose name is not less.
  unfoldable pub read_via : Message A → Message A
  read_via m = elim (lower_bound (codes "VIA") m.sip_field_map) [
    | none ↦ m
    | some value ↦ set_via (g.via (c_str value)) m
  ]

  unfoldable pub read_content_type : Message A → Message A
  read_content_type m = record m {
    packet = record m.packet { has_sdp_payload = is_sdp (sip_field "CONTENT-TYPE" m) };
  }

  -- The fields after the loop, in the order of the code.
  unfoldable pub read_fields : Message A → Message A
  read_fields m = m ▷ read_from ▷ read_to ▷ read_call_id ▷ read_cseq ▷ read_via ▷ read_content_type

  abbrev pub parse_message : List String → Option (Message A)
  parse_message [] = none
  parse_message (line ∷ rest) =
      some (new_message g ▷ parse_start_line g line ▷ parse_lines g rest false ▷ read_fields)

  -- `parseSip`, on the object as its constructor left it; `none` is the result false.
  unfoldable pub parse_sip : String → Option (Message A)
  parse_sip raw = parse_message (g.split_lines raw)
