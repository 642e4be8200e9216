-- ===== src/Sip/Parser/Outcomes.antt =====
-- When `SipPacket::parse` accepts a message, and when an exception leaves it.
use callx.Container.Map.{Map}
use callx.Network.SocketAddress.{SocketAddress, tp_udp}
use callx.Prelude.{
  ◌≤◌, ◌<◌, ◌≡◌, ◌↔◌, ◌⊎◌, refl, inl, inr, true, ◌++◌, [], ◌∷◌, none, some, String, arith, All,
  Bool-cases, Option-cases, codes, c_str, Bytes, bytes_equal, length, drop, number_from,
}
use callx.Sip.Parser.Fields.{parse_sip}
use callx.Sip.Parser.Grammar.{Grammar}
use callx.Sip.Parser.Message.{Message}
use callx.Sip.Parser.Sdp.{
  accepted, thrown, parse, parse_sdp, parse_sdp_fields, parse_sdp_field, take_address, take_port,
  Verdict-cases, connection_address, is_connection, to_port,
}

module _ {A : Type 0} (g : Grammar A) where
  -- The address of a connection field can be read.
  abbrev pub HasAddress : Bytes → String → Type 0
  HasAddress name value =
      is_connection g name value ≡ true
      → (7 ≤ length (codes value)) × ((a : A) × (g.from_string (drop 7 (codes value)) ≡ some a))

  -- The port of a media field is one of UDP's.
  abbrev pub HasPort : Bytes → String → Type 0
  HasPort name value =
      (digits : String)
      → bytes_equal name (codes "m") ≡ true
      → g.media (c_str value) ≡ some digits
      → (0 < number_from 0 (codes digits)) × (number_from 0 (codes digits) ≤ 65535)

  abbrev pub IsReadable : Bytes × String → Type 0
  IsReadable (name, value) = HasAddress name value × HasPort name value

  take_address_readable :
      (name : Bytes) (value : String) (s : SocketAddress A)
      → HasAddress name value
      → (t : SocketAddress A) × (take_address g name value s ≡ accepted t)
  unfolding take_address connection_address
  take_address_readable name value s h = elim (Bool-cases (is_connection g name value)) [
    | inl e ↦ let (le, (a, q)) = h e in (record s { ip = a }, ground arith)
    | inr e ↦ (s, ground arith)
  ]

  take_port_readable :
      (name : Bytes) (value : String) (s : SocketAddress A)
      → HasPort name value
      → (t : SocketAddress A) × (take_port g name value s ≡ accepted t)
  unfolding take_port to_port
  take_port_readable name value s h = elim (Bool-cases (bytes_equal name (codes "m"))) [
    | inl e ↦ elim (Option-cases (g.media (c_str value))) [
      | inl q ↦ (s, ground arith)
      | inr (digits, q) ↦
          let (low, high) = h digits e q in
          (record s { port = number_from 0 (codes digits) }, ground arith)
    ]
    | inr e ↦ (s, ground arith)
  ]

  take_address_accepted :
      (name : Bytes) (value : String) (s t : SocketAddress A)
      → take_address g name value s ≡ accepted t
      → HasAddress name value
  unfolding take_address connection_address
  take_address_accepted name value s t h e =
      elim (Option-cases (g.from_string (drop 7 (codes value)))) [
        | inl q ↦ ground arith
        | inr (a, q) ↦ (ground arith, (a, q))
      ]

  take_port_accepted :
      (name : Bytes) (value : String) (s t : SocketAddress A)
      → take_port g name value s ≡ accepted t
      → HasPort name value
  unfolding take_port to_port
  take_port_accepted name value s t h digits e q = ground arith

  parse_sdp_fields_readable :
      (m : Map Bytes String) (s : SocketAddress A)
      → All IsReadable m
      → (t : SocketAddress A) × (parse_sdp_fields g m s ≡ accepted t)
  unfolding parse_sdp_fields parse_sdp_field
  parse_sdp_fields_readable [] s h = (s, refl)
  parse_sdp_fields_readable ((name, value) ∷ m) s h =
      let (t, e) = take_address_readable name value s h.0.0 in
      let (u, f) = take_port_readable name value t h.0.1 in
      let (v, q) = parse_sdp_fields_readable m u h.1 in (v, ground arith)

  parse_sdp_fields_accepted :
      (m : Map Bytes String) (s t : SocketAddress A)
      → parse_sdp_fields g m s ≡ accepted t
      → All IsReadable m
  unfolding parse_sdp_fields parse_sdp_field
  parse_sdp_fields_accepted [] s t h = tt
  parse_sdp_fields_accepted ((name, value) ∷ m) s t h =
      elim (Verdict-cases (take_address g name value s)) [
        | inl (u, e) ↦ elim (Verdict-cases (take_port g name value u)) [
          | inl (v, f) ↦ (
            (take_address_accepted name value s u e, take_port_accepted name value u v f),
            parse_sdp_fields_accepted m v t (ground arith),
          )
          | inr (inl f) ↦ ground arith
          | inr (inr f) ↦ ground arith
        ]
        | inr (inl e) ↦ ground arith
        | inr (inr e) ↦ ground arith
      ]

  parse_sdp_readable :
      (m : Message A)
      → All IsReadable m.sdp_field_map
      → (n : Message A) × (parse_sdp g m ≡ accepted n)
  unfolding parse_sdp
  parse_sdp_readable m h =
      let (s, q) = parse_sdp_fields_readable m.sdp_field_map m.packet.sdp_media_socket h in
      (
        record m { packet = record m.packet { sdp_media_socket = record s { proto = tp_udp } } },
        ground arith,
      )

  parse_sdp_accepted :
      (m n : Message A) → parse_sdp g m ≡ accepted n → All IsReadable m.sdp_field_map
  unfolding parse_sdp
  parse_sdp_accepted m n h =
      elim (Verdict-cases (parse_sdp_fields g m.sdp_field_map m.packet.sdp_media_socket)) [
        | inl (s, e) ↦ parse_sdp_fields_accepted m.sdp_field_map m.packet.sdp_media_socket s e
        | inr (inl e) ↦ ground arith
        | inr (inr e) ↦ ground arith
      ]

  -- `parse` accepts a text exactly when it has a start line and, if the message has a media
  -- description, each connection field of it that begins with IN IP has at least 7 characters and an
  -- address after them, and each media field with a port has one from 1 to 65535. Nothing else of the
  -- message is asked for.
  pub parse-accepted_iff :
      (raw : String)
      → ((m : Message A) × (parse g raw ≡ accepted m)) ↔ (
          (m : Message A) × (parse_sip g raw ≡ some m)
          × (m.packet.has_sdp_payload ≡ true → All IsReadable m.sdp_field_map))
  unfolding parse
  parse-accepted_iff raw = (
    (λ (m, h). elim (Option-cases (parse_sip g raw)) [
      | inl e ↦ ground arith
      | inr (n, e) ↦ (n, e, λ b. parse_sdp_accepted n m (ground arith))
    ]),
    (λ (m, e, h). elim (Bool-cases m.packet.has_sdp_payload) [
      | inl b ↦ let (n, q) = parse_sdp_readable m (h b) in (n, ground arith)
      | inr b ↦ (m, ground arith)
    ]),
  )

  fields_throw :
      (before after : Map Bytes String) (name : Bytes) (value : String) (s : SocketAddress A)
      → All IsReadable before
      → is_connection g name value ≡ true
      → connection_address g value ≡ none
      → parse_sdp_fields g (before ++ (name, value) ∷ after) s ≡ thrown
  unfolding parse_sdp_fields parse_sdp_field take_address
  fields_throw [] after name value s h e q = ground arith
  fields_throw ((n, v) ∷ m) after name value s h e q =
      let (t, f) = take_address_readable n v s h.0.0 in
      let (u, l) = take_port_readable n v t h.0.1 in
      ground (arith, fields_throw m after name value u h.1 e q)

  -- Where a connection field is reached that begins with IN IP and has fewer than 7 characters, or no
  -- address after them, an exception leaves `parse`, whatever the rest of the message holds.
  pub parse-thrown :
      (raw : String) (m : Message A) (before after : Map Bytes String) (name : Bytes)
      (value : String)
      → parse_sip g raw ≡ some m
      → m.packet.has_sdp_payload ≡ true
      → m.sdp_field_map ≡ before ++ (name, value) ∷ after
      → All IsReadable before
      → is_connection g name value ≡ true
      → (length (codes value) < 7) ⊎ (g.from_string (drop 7 (codes value)) ≡ none)
      → parse g raw ≡ thrown
  unfolding parse parse_sdp connection_address
  parse-thrown raw m before after name value e b q h c bad =
      ground
        (arith, fields_throw before after name value m.packet.sdp_media_socket h c (ground arith))
