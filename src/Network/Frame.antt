-- ===== src/Network/Frame.antt =====
-- src/network/TlayerPacket.cpp: the Ethernet, IPv4 and UDP headers of a captured frame. Sizes are
-- `size_t`, 64 bits, and wrap. The header fields stand where the protocols put them; an address
-- goes through `inet_ntop` and `from_string` to the type `A`, which is the parameter `address_of`.
use callx.Network.Payload.{Payload}
use callx.Network.SocketAddress.{SocketAddress, tp_udp}
use callx.Prelude.{
  ℕ, ◌+◌, ◌-◌, ◌*◌, ◌%◌, ◌^◌, ◌≤◌, ◌<◌, ◌≡◌, ◌↔◌, refl, true, Option, none, some, arith,
  if◌then◌else◌, ◌==◌, ltb, is_some,
}

-- The size of the `size_t` values.
abbrev pub size_mod : ℕ
size_mod = 2 ^ 64

abbrev pub sub_size : ℕ → ℕ → ℕ
sub_size a b = (a + size_mod - b) % size_mod

abbrev pub add_size : ℕ → ℕ → ℕ
add_size a b = (a + b) % size_mod

pub record TlayerPacket (A : Type 0) : Type 0 where
  pub buffer : ℕ → ℕ
  pub caplen : ℕ
  pub ip_payload : Payload
  pub udp_payload : Payload
  pub src : SocketAddress A
  pub dst : SocketAddress A

abbrev pub word : (ℕ → ℕ) → ℕ → ℕ
word b i = b i * 256 + b (i + 1)

abbrev pub from : (ℕ → ℕ) → ℕ → ℕ → ℕ
from b n = λ i. b (n + i)

abbrev pub ethertype_ip : ℕ
ethertype_ip = 0x800

abbrev pub ethertype_ipv6 : ℕ
ethertype_ipv6 = 0x86DD

-- `sizeof(ether_header)`, `sizeof(udphdr)`
abbrev pub ether_header_len : ℕ
ether_header_len = 14

abbrev pub udp_header_len : ℕ
udp_header_len = 8

-- `ip_hl * 4`
abbrev pub ip_header_len : (ℕ → ℕ) → ℕ
ip_header_len b = b ether_header_len % 16 * 4

-- What wraps below 0 wraps back.
add-sub_size : (a b : ℕ) → a < size_mod → b < size_mod → add_size b (sub_size a b) ≡ a
add-sub_size a b h l = omega arith

module _ {A : Type 0} (address_of : (ℕ → ℕ) → A) where
  -- The part of `parseNetlayer` for IPv4; `none` where it returns false.
  unfoldable pub parse_ipv4 : TlayerPacket A → Option (TlayerPacket A)
  parse_ipv4 p =
      let ether_len = sub_size p.caplen ether_header_len in
      let header_len = ip_header_len p.buffer in
      let payload_len = sub_size ether_len header_len in
      let ip = from p.buffer ether_header_len in
      if ltb ether_len (add_size header_len payload_len)
      then none
      else some (record p {
        ip_payload = record { byte = from ip header_len; size = payload_len };
        src = record p.src { ip = address_of (from ip 12); proto = ip 9 };
        dst = record p.dst { ip = address_of (from ip 16); proto = ip 9 };
      })

  -- `parseNetlayer`
  unfoldable pub parse_netlayer : TlayerPacket A → Option (TlayerPacket A)
  unfolding parse_ipv4
  parse_netlayer p =
      let ether_type = word p.buffer 12 in
      if ether_type == ethertype_ip
      then parse_ipv4 p
      else if ether_type == ethertype_ipv6
      then none
      else none

  -- A frame with a captured length below 2^32 is taken by the parser exactly when its Ethernet type is
  -- IPv4: the sanity check never fails.
  pub parse_netlayer_iff :
      (p : TlayerPacket A)
      → p.caplen < 2 ^ 32
      → (is_some (parse_netlayer p) ≡ true) ↔ (word p.buffer 12 ≡ ethertype_ip)
  unfolding parse_netlayer
  parse_netlayer_iff p h = (
    (λ t. ground arith),
    (λ e.
        ground (arith, add-sub_size (sub_size p.caplen ether_header_len) (ip_header_len p.buffer))),
  )

module _ {A : Type 0} where
  -- `parseTransportlayer`
  unfoldable pub parse_transportlayer : TlayerPacket A → Option (TlayerPacket A)
  parse_transportlayer p =
      let payload_len = sub_size p.ip_payload.size udp_header_len in
      let udp = p.ip_payload.byte in
      if ltb p.ip_payload.size (add_size udp_header_len payload_len)
      then none
      else some (record p {
        udp_payload = record { byte = from udp udp_header_len; size = payload_len };
        src = record p.src { port = word udp 0; proto = tp_udp };
        dst = record p.dst { port = word udp 2; proto = tp_udp };
      })

  -- Whatever the size of the IP payload, below 2^64, the packet is parsed; the payload's size is the
  -- difference with wrap-around, and the destination port the second word of the header.
  pub parse_transportlayer_total :
      (p : TlayerPacket A)
      → p.ip_payload.size < size_mod
      → (q : TlayerPacket A) × (parse_transportlayer p ≡ some q)
        × (q.udp_payload.size ≡ sub_size p.ip_payload.size udp_header_len)
        × (q.dst.port ≡ word p.ip_payload.byte 2)
  unfolding parse_transportlayer
  parse_transportlayer_total p h =
      (q, ground (arith, add-sub_size p.ip_payload.size udp_header_len), refl, refl)
    where
      q : TlayerPacket A
      q =
          let udp = p.ip_payload.byte in
          record p {
            udp_payload = record {
              byte = from udp udp_header_len;
              size = sub_size p.ip_payload.size udp_header_len;
            };
            src = record p.src { port = word udp 0; proto = tp_udp };
            dst = record p.dst { port = word udp 2; proto = tp_udp };
          }

  -- A parsed packet whose IP payload is shorter than the UDP header has a UDP payload of at least
  -- 2^64 - 8.
  parse_transportlayer_short :
      (p q : TlayerPacket A)
      → p.ip_payload.size < udp_header_len
      → parse_transportlayer p ≡ some q
      → 2 ^ 64 - 8 ≤ q.udp_payload.size
  unfolding parse_transportlayer
  parse_transportlayer_short p q h e = ground arith
