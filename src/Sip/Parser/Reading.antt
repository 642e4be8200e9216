-- ===== src/Sip/Parser/Reading.antt =====
-- What `SipPacket::parse` makes of the lines of a message.
use callx.Container.Map.{find}
use callx.Container.Multimap.{IsSorted}
use callx.Prelude.{
  ◌≡◌, subst, Bool-cases, inl, inr, false, List, [], ◌∷◌, Option, none, some, String, arith,
  bytes_key, codes, c_str, Bytes,
}
use callx.Sip.Parser.Fields.{
  parse_sip, read_fields, read_from, read_to, read_call_id, read_cseq, read_via, read_content_type,
  is_sdp,
}
use callx.Sip.Parser.Grammar.{Grammar}
use callx.Sip.Parser.Header.{
  header_value, parse_lines-packet, parse_lines-IsSorted, find-parse_lines,
}
use callx.Sip.Parser.Message.{Message, new_message, parse_start_line, parse_lines, nobody}
use callx.Sip.Parser.Sdp.{accepted, parse, parse_sdp, parse_sdp_fields, Verdict-cases}
use callx.Sip.Types.{SipFromTo, MessageType}

abbrev pub or_empty : Option String → String
or_empty none = ""
or_empty (some s) = s

module _ {A : Type 0} (g : Grammar A) where
  abbrev pub parties : Option String → SipFromTo
  parties none = nobody
  parties (some value) = g.from_and_to (c_str value)

  -- The type of a message by its start line.
  abbrev pub kind : String → MessageType
  kind line = elim (g.request (c_str line)) [
    | some _ ↦ MessageType.request
    | none ↦ elim (g.response (c_str line)) [
      | some _ ↦ MessageType.response
      | none ↦ MessageType.malformed
    ]
  ]

  -- The members of a message by the lines that follow the start line.
  pub record Reads (line : String) (rest : List String) (m : Message A) : Type 0 where
    pub message_type : m.packet.message_type ≡ kind line
    pub call_id : m.packet.call_id ≡ or_empty (header_value g (codes "CALL-ID") rest)
    pub from : m.packet.from ≡ parties (header_value g (codes "FROM") rest)
    pub to : m.packet.to ≡ parties (header_value g (codes "TO") rest)
    pub sdp : m.packet.has_sdp_payload ≡ is_sdp (header_value g (codes "CONTENT-TYPE") rest)

  abbrev pub loop : String → List String → Message A
  loop line rest = parse_lines g rest false (parse_start_line g line (new_message g))

  start_line-maps : (line : String) → (parse_start_line g line (new_message g)).sip_field_map ≡ []
  unfolding parse_start_line new_message
  start_line-maps line = ground arith

  pub loop-IsSorted : (line : String) (rest : List String) → IsSorted (loop line rest).sip_field_map
  loop-IsSorted line rest =
      parse_lines-IsSorted g rest (parse_start_line g line (new_message g))
        (rw (start_line-maps line) tt)

  pub find-loop :
      (name : Bytes) (line : String) (rest : List String)
      → find name (loop line rest).sip_field_map ≡ header_value g name rest
  unfolding find
  find-loop name line rest =
      let e = start_line-maps line in
      let sorted = find-parse_lines g name rest (parse_start_line g line (new_message g)) in
      ground (arith, sorted (rw e tt))

  -- Each field is read from the map alone.
  read_fields-members :
      (m : Message A)
      → ((read_fields g m).packet.message_type ≡ m.packet.message_type)
        × ((read_fields g m).packet.call_id ≡ elim (find (codes "CALL-ID") m.sip_field_map) [
          | none ↦ m.packet.call_id
          | some v ↦ v
        ])
        × ((read_fields g m).packet.from ≡ elim (find (codes "FROM") m.sip_field_map) [
          | none ↦ m.packet.from
          | some v ↦ g.from_and_to (c_str v)
        ])
        × ((read_fields g m).packet.to ≡ elim (find (codes "TO") m.sip_field_map) [
          | none ↦ m.packet.to
          | some v ↦ g.from_and_to (c_str v)
        ])
        × ((read_fields g m).packet.has_sdp_payload
            ≡ is_sdp (find (codes "CONTENT-TYPE") m.sip_field_map))
  unfolding read_fields read_from read_to read_call_id read_cseq read_via read_content_type
  read_fields-members m = ground arith

  pub loop-packet :
      (line : String) (rest : List String)
      → (loop line rest).packet ≡ (parse_start_line g line (new_message g)).packet
  loop-packet line rest = parse_lines-packet g rest false _

  pub start_line-members :
      (line : String)
      → (let m = parse_start_line g line (new_message g) in
          (m.packet.message_type ≡ kind line)
          × (m.packet.call_id ≡ "")
          × (m.packet.from ≡ nobody)
          × (m.packet.to ≡ nobody)
          × (m.packet.branch ≡ ""))
  unfolding parse_start_line new_message
  start_line-members line = ground arith

  read_fields-Reads :
      (line : String) (rest : List String) → Reads line rest (read_fields g (loop line rest))
  read_fields-Reads line rest =
      let fields = read_fields-members (loop line rest) in
      let packet = loop-packet line rest in
      let start = start_line-members line in
      record {
        message_type = ground (arith, fields.0);
        call_id = ground (arith, find-loop (codes "CALL-ID") line rest);
        from = ground (arith, find-loop (codes "FROM") line rest);
        to = ground (arith, find-loop (codes "TO") line rest);
        sdp = ground (arith, find-loop (codes "CONTENT-TYPE") line rest);
      }

  parse_sdp-Reads :
      (line : String) (rest : List String) (m n : Message A)
      → parse_sdp g m ≡ accepted n
      → Reads line rest m
      → Reads line rest n
  unfolding parse_sdp
  parse_sdp-Reads line rest m n h r =
      elim (Verdict-cases (parse_sdp_fields g m.sdp_field_map m.packet.sdp_media_socket)) [
        | inl (s, e) ↦ ground arith
        | inr (inl e) ↦ ground arith
        | inr (inr e) ↦ ground arith
      ]

  -- A message that `parse` accepts has the type of its start line, and its Call-ID, From, To and
  -- Content-Type are the first header lines of these names, in whatever case they are written, before
  -- the first empty line; where there is no such line, the Call-ID and the parties are empty and there
  -- is no media description.
  pub parse-Reads :
      (raw line : String) (rest : List String) (m : Message A)
      → g.split_lines raw ≡ line ∷ rest
      → parse g raw ≡ accepted m
      → Reads line rest m
  unfolding parse parse_sip
  parse-Reads raw line rest m e h =
      let read = read_fields-Reads line rest in
      elim (Bool-cases (read_fields g (loop line rest)).packet.has_sdp_payload) [
        | inl b ↦ parse_sdp-Reads line rest (read_fields g (loop line rest)) m (ground arith) read
        | inr b ↦ subst (Reads line rest) (ground arith) read
      ]
