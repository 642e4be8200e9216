-- ===== src/Sip/Parser/Sdp.antt =====
-- `SipPacket::parseSdp` and `SipPacket::parse` of src/sip/SipPacket.cpp, with the exceptions of
-- `substr` and `from_string` as the verdict `thrown`, and the worker's use of the verdict.
use callx.Container.Map.{Map}
use callx.Network.SocketAddress.{SocketAddress, tp_udp}
use callx.Prelude.{
  ℕ, ◌≡◌, refl, ◌⊎◌, inl, inr, Bool, ◌&&◌, ◌||◌, [], ◌∷◌, Option, none, some, String, if◌then◌else◌,
  codes, c_str, Bytes, bytes_equal, starts, number_from, length, drop, ltb, leb, ◌==◌,
}
use callx.Sip.Parser.Fields.{parse_sip}
use callx.Sip.Parser.Grammar.{Grammar}
use callx.Sip.Parser.Message.{Message}

pub data Verdict (B : Type 0) : Type 0 where
  accepted : B → Verdict B
  refused : Verdict B
  thrown : Verdict B

pub Verdict-cases :
    {B : Type 0} (v : Verdict B) → ((b : B) × (v ≡ accepted b)) ⊎ (v ≡ refused) ⊎ (v ≡ thrown)
Verdict-cases (accepted b) = inl (b, refl)
Verdict-cases refused = inr (inl refl)
Verdict-cases thrown = inr (inr refl)

infixl 5 ◌>>=◌
abbrev pub ◌>>=◌ : {B C : Type 0} → Verdict B → (B → Verdict C) → Verdict C
accepted b >>= f = f b
refused >>= f = refused
thrown >>= f = thrown

-- `StringToNumber<unsigned short>`: 0 where the number does not fit.
unfoldable pub to_port : String → ℕ
to_port digits = let n = number_from 0 (codes digits) in if leb n 65535 then n else 0

module _ {A : Type 0} (g : Grammar A) where
  -- `substr(7)` throws on a text of less than 7 characters.
  unfoldable pub connection_address : String → Option A
  connection_address value =
      if ltb (length (codes value)) 7 then none else g.from_string (drop 7 (codes value))

  abbrev pub is_connection : Bytes → String → Bool
  is_connection name value = bytes_equal name (codes "c") && starts (codes "IN IP") (codes value)

  abbrev set_address : Option A → SocketAddress A → Verdict (SocketAddress A)
  set_address none s = thrown
  set_address (some a) s = accepted (record s { ip = a })

  abbrev set_port : Option String → SocketAddress A → Verdict (SocketAddress A)
  set_port none s = accepted s
  set_port (some digits) s =
      let port = to_port digits in
      if port == 0 || ltb 65535 port then refused else accepted (record s { port = port })

  unfoldable pub take_address : Bytes → String → SocketAddress A → Verdict (SocketAddress A)
  take_address name value s =
      if is_connection name value then set_address (connection_address value) s else accepted s

  unfoldable pub take_port : Bytes → String → SocketAddress A → Verdict (SocketAddress A)
  take_port name value s =
      if bytes_equal name (codes "m") then set_port (g.media (c_str value)) s else accepted s

  -- The body of the loop: the address of a `c` field, the port of an `m` field.
  unfoldable pub parse_sdp_field : Bytes → String → SocketAddress A → Verdict (SocketAddress A)
  parse_sdp_field name value s = take_address name value s >>= take_port name value

  unfoldable pub parse_sdp_fields : Map Bytes String → SocketAddress A → Verdict (SocketAddress A)
  parse_sdp_fields [] s = accepted s
  parse_sdp_fields ((name, value) ∷ m) s = parse_sdp_field name value s >>= parse_sdp_fields m

  -- `parseSdp`
  unfoldable pub parse_sdp : Message A → Verdict (Message A)
  parse_sdp m = do
    s ← parse_sdp_fields m.sdp_field_map m.packet.sdp_media_socket
    accepted
        (record m { packet = record m.packet { sdp_media_socket = record s { proto = tp_udp } } })

  abbrev pub parse_body : Option (Message A) → Verdict (Message A)
  parse_body none = refused
  parse_body (some m) = if m.packet.has_sdp_payload then parse_sdp m else accepted m

  -- `parse`
  unfoldable pub parse : String → Verdict (Message A)
  parse raw = parse_body (parse_sip g raw)
