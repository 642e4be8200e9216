-- ===== src/Sip/Parser/Via.antt =====
-- The branch of a message, which `SipPacket::parseSip` takes from `lower_bound("VIA")`.
use callx.Container.Multimap.{lower_bound, lower_bound_other}
use callx.Prelude.{
  ◌≡◌, ◌⊎◌, true, false, List, ◌∷◌, Option, none, some, String, arith, before, bytes_key, codes,
  c_str, is_some, Bytes,
}
use callx.Sip.Parser.Fields.{
  parse_sip, read_fields, read_from, read_to, read_call_id, read_cseq, read_via, read_content_type,
}
use callx.Sip.Parser.Grammar.{Grammar}
use callx.Sip.Parser.Header.{header_value, bytes-IsStrictOrder}
use callx.Sip.Parser.Message.{Message}
use callx.Sip.Parser.Reading.{loop, find-loop, loop-IsSorted, loop-packet, start_line-members}

module _ {A : Type 0} (g : Grammar A) where
  abbrev pub branch_of : Option (String × String × String) → String
  branch_of none = ""
  branch_of (some (protocol, sent_by, branch)) = branch

  read_fields-branch :
      (m : Message A)
      → (read_fields g m).packet.branch ≡ elim (lower_bound (codes "VIA") m.sip_field_map) [
        | none ↦ m.packet.branch
        | some value ↦ elim (g.via (c_str value)) [
          | none ↦ m.packet.branch
          | some (protocol, sent_by, branch) ↦ branch
        ]
      ]
  unfolding read_fields read_from read_to read_call_id read_cseq read_via read_content_type
  read_fields-branch m = ground arith

  -- The branch of a message is read from the first line of the least header name, in upper case, that
  -- is not less than VIA: the Via line where there is one, else any header whose name comes later in
  -- the alphabet.
  pub parse_sip-branch :
      (raw line : String) (rest : List String) (m : Message A) (name : Bytes) (value : String)
      → g.split_lines raw ≡ line ∷ rest
      → parse_sip g raw ≡ some m
      → before name (codes "VIA") ≡ false
      → ((c : Bytes)
          → is_some (header_value g c rest) ≡ true
          → (before c (codes "VIA") ≡ true) ⊎ (before c name ≡ false))
      → header_value g name rest ≡ some value
      → m.packet.branch ≡ branch_of (g.via (c_str value))
  unfolding parse_sip
  parse_sip-branch raw line rest m name value e h low least found =
      let bound =
        lower_bound_other bytes-IsStrictOrder (codes "VIA") name value
          (loop g line rest).sip_field_map (loop-IsSorted g line rest) low
          (λ c f. least c (rw (← find-loop g c line rest) f))
          (rw (find-loop g name line rest) found) in
      ground (
        arith,
        read_fields-branch (loop g line rest),
        loop-packet g line rest,
        start_line-members g line,
      )
