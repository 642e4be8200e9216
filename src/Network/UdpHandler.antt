-- ===== src/Network/UdpHandler.antt =====
-- A round of `UdpHandler::worker`, src/network/UdpHandler.cpp: an RTP packet goes to the sink of its
-- destination, a packet that looks like SIP to the `SipPacketQueue`, and all else back to the pool.
use callx.Audio.RtpSink.{roll_in}
use callx.Container.FriendlyMap.{FriendlyMap}
use callx.Container.FriendlyMap
use callx.Network.Frame.{TlayerPacket, parse_transportlayer}
use callx.Network.SipIdent.{is_sip}
use callx.Network.SocketAddress.{socket_key}
use callx.Prelude.{ℕ, ◌/◌, none, some, Key, if◌then◌else◌, ltb, ◌==◌, update}
use callx.Sip.World.{World}

-- Where a packet goes.
pub data Route : Type 0 where
  unparsed : Route
  rtp : ℕ → Route
  too_short : Route
  sip : Route
  unknown : Route

-- The result of a round: `fault` is the null dereference of a sink without its deque.
pub data Sorted (A : Type 0) : Type 0 where
  fault : Sorted A
  sorted : Route → World A → Sorted A

module _ {A : Type 0} ⦃k : Key A⦄ where
  -- The SIP test.
  unfoldable pub route_sip : ℕ → TlayerPacket A → Route
  route_sip min_sip_size p =
      if ltb p.udp_payload.size min_sip_size
      then Route.too_short
      else if is_sip p.udp_payload.byte min_sip_size
      then Route.sip
      else Route.unknown

  -- The tests on a parsed packet: RTP version 2 in the first two bits, and a sink for the destination.
  unfoldable pub route : ℕ → TlayerPacket A → World A → Route
  unfolding route_sip
  route min_sip_size p w =
      if p.udp_payload.byte 0 / 64 == 2
      then elim (FriendlyMap.find p.dst w.rtp_sink_map) [
        | some s ↦ Route.rtp s
        | none ↦ route_sip min_sip_size p
      ]
      else route_sip min_sip_size p

  unfoldable pub deliver : Route → TlayerPacket A → World A → Sorted A
  deliver (Route.rtp s) p w = elim (roll_in p.udp_payload (w.sinks s)) [
    | none ↦ fault
    | some (sink, returned) ↦ sorted (Route.rtp s) (record w { sinks = update w.sinks s sink })
  ]
  deliver r p w = sorted r w

  -- One round.
  unfoldable pub udp_round : ℕ → TlayerPacket A → World A → Sorted A
  unfolding deliver
  udp_round min_sip_size p w = elim (parse_transportlayer p) [
    | none ↦ sorted Route.unparsed w
    | some q ↦ deliver (route min_sip_size q w) q w
  ]
