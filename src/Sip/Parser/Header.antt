-- ===== src/Sip/Parser/Header.antt =====
-- The field map that the loop of `SipPacket::parseSip` fills, against the lines of the message.
use callx.Container.Map.{find}
use callx.Container.Multimap.{IsSorted, add-IsSorted, find-add}
use callx.Network.SocketAddress.{IsStrictOrder}
use callx.Prelude.{
  ◌≡◌, refl, ◌∙◌, inl, inr, Bool, true, false, List, [], ◌∷◌, Option, none, some, String,
  if◌then◌else◌, arith, same, before, Bytes, bytes_key, bytes_less_irrefl, bytes_less_trans,
  bytes_less_total, Bool-cases, Option-cases, c_str,
}
use callx.Sip.Parser.Grammar.{Grammar}
use callx.Sip.Parser.Message.{
  Message, parse_line, parse_lines, parse_sip_line, parse_sdp_line, is_empty_line, upper,
}

pub bytes-IsStrictOrder : IsStrictOrder {A = Bytes} before
bytes-IsStrictOrder = record {
  irrefl = bytes_less_irrefl;
  trans = bytes_less_trans;
  total = bytes_less_total;
}

module _ {A : Type 0} (g : Grammar A) where
  abbrev value_or : Option (String × String) → Bytes → Option String → Option String
  value_or none name other = other
  value_or (some (field, value)) name other = if same (upper field) name then some value else other

  -- The value of the first line before the first empty one whose name, in upper case, is `name`.
  abbrev pub header_value : Bytes → List String → Option String
  header_value name [] = none
  header_value name (line ∷ rest) =
      let other = header_value name rest in
      if is_empty_line line then none else value_or (g.sip_field (c_str line)) name other

  abbrev first_of : Option String → Option String → Option String
  first_of none other = other
  first_of (some v) other = some v

  parse_line-packet :
      (b : Bool) (line : String) (m : Message A) → (parse_line g b line m).packet ≡ m.packet
  unfolding parse_line parse_sip_line parse_sdp_line
  parse_line-packet b line m = ground arith

  pub parse_lines-packet :
      (lines : List String) (b : Bool) (m : Message A) → (parse_lines g lines b m).packet ≡ m.packet
  unfolding parse_lines
  parse_lines-packet [] b m = refl
  parse_lines-packet (line ∷ rest) b m =
      parse_lines-packet rest _ (parse_line g b line m) ∙ parse_line-packet b line m

  parse_line-body :
      (line : String) (m : Message A) → (parse_line g true line m).sip_field_map ≡ m.sip_field_map
  unfolding parse_line parse_sdp_line
  parse_line-body line m = ground arith

  parse_lines-body :
      (lines : List String) (m : Message A)
      → (parse_lines g lines true m).sip_field_map ≡ m.sip_field_map
  unfolding parse_lines
  parse_lines-body [] m = refl
  parse_lines-body (line ∷ rest) m =
      parse_lines-body rest (parse_line g true line m) ∙ parse_line-body line m

  parse_sip_line-IsSorted :
      (line : String) (m : Message A)
      → IsSorted m.sip_field_map
      → IsSorted (parse_sip_line g line m).sip_field_map
  unfolding parse_sip_line
  parse_sip_line-IsSorted line m h = elim (Option-cases (g.sip_field (c_str line))) [
    | inl e ↦ rw (e, parse_sip_line) h
    | inr (f, e) ↦
        rw (e, parse_sip_line) (add-IsSorted bytes-IsStrictOrder (upper f.0) f.1 m.sip_field_map h)
  ]

  parse_line-IsSorted :
      (line : String) (m : Message A)
      → IsSorted m.sip_field_map
      → IsSorted (parse_line g false line m).sip_field_map
  unfolding parse_line
  parse_line-IsSorted line m h = elim (Bool-cases (is_empty_line line)) [
    | inl e ↦ rw (e) h
    | inr e ↦ rw (e) (parse_sip_line-IsSorted line m h)
  ]

  pub parse_lines-IsSorted :
      (lines : List String) (m : Message A)
      → IsSorted m.sip_field_map
      → IsSorted (parse_lines g lines false m).sip_field_map
  unfolding parse_lines
  parse_lines-IsSorted [] m h = h
  parse_lines-IsSorted (line ∷ rest) m h = elim (Bool-cases (is_empty_line line)) [
    | inl e ↦
        rw (e, parse_lines, parse_lines-body rest (parse_line g false line m))
          (parse_line-IsSorted line m h)
    | inr e ↦ rw (e, parse_lines) (parse_lines-IsSorted rest _ (parse_line-IsSorted line m h))
  ]

  parse_line-empty :
      (line : String) (m : Message A) → is_empty_line line ≡ true → parse_line g false line m ≡ m
  unfolding parse_line
  parse_line-empty line m e = rw e refl

  find-parse_line :
      (name : Bytes) (line : String) (m : Message A)
      → IsSorted m.sip_field_map
      → is_empty_line line ≡ false
      → find name (parse_line g false line m).sip_field_map
        ≡ first_of (find name m.sip_field_map) (value_or (g.sip_field (c_str line)) name none)
  unfolding parse_line parse_sip_line
  find-parse_line name line m h e = elim (Option-cases (g.sip_field (c_str line))) [
    | inl f ↦ ground arith
    | inr (f, q) ↦
        ground (arith, find-add bytes-IsStrictOrder (upper f.0) name f.1 m.sip_field_map h)
  ]

  pub find-parse_lines :
      (name : Bytes) (lines : List String) (m : Message A)
      → IsSorted m.sip_field_map
      → find name (parse_lines g lines false m).sip_field_map
        ≡ first_of (find name m.sip_field_map) (header_value name lines)
  unfolding parse_lines
  find-parse_lines name [] m h = ground arith
  find-parse_lines name (line ∷ rest) m h = elim (Bool-cases (is_empty_line line)) [
    | inl e ↦
        ground (arith, parse_lines-body rest (parse_line g false line m), parse_line-empty line m e)
    | inr e ↦ ground (
      arith,
      find-parse_lines name rest (parse_line g false line m) (parse_line-IsSorted line m h),
      find-parse_line name line m h e,
    )
  ]
