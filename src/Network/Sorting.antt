-- ===== src/Network/Sorting.antt =====
-- Where a round of `UdpHandler::worker`, src/network/UdpHandler.cpp, sends a parsed packet.
use callx.Container.FriendlyMap.{FriendlyMap}
use callx.Container.FriendlyMap
use callx.Network.Frame.{TlayerPacket, parse_transportlayer}
use callx.Network.SipIdent.{is_sip, is_sip_iff, sip_ident_len}
use callx.Network.SocketAddress.{socket_key}
use callx.Network.UdpHandler.{Route, sorted, route, route_sip, deliver, udp_round}
use callx.Prelude.{
  ℕ, ◌+◌, ◌/◌, ◌≤◌, ◌<◌, ◌^◌, ◌≡◌, ◌↔◌, true, false, some, Key, ◌==◌, arith, is_some, Bool, ◌&&◌,
  Option-cases, inl, inr, none, ◌∙◌, sym, refl,
}
use callx.Sip.World.{World}

module _ {A : Type 0} ⦃k : Key A⦄ where
  -- Version 2, for a socket that has a sink.
  abbrev pub is_rtp : TlayerPacket A → World A → Bool
  is_rtp p w = p.udp_payload.byte 0 / 64 == 2 && is_some (FriendlyMap.find p.dst w.rtp_sink_map)

  route_sip_iff :
      (min_sip_size : ℕ) (p : TlayerPacket A) (w : World A)
      → (route min_sip_size p w ≡ Route.sip) ↔ (
          (is_rtp p w ≡ false)
          × (min_sip_size ≤ p.udp_payload.size)
          × (is_sip p.udp_payload.byte min_sip_size ≡ true))
  unfolding route route_sip
  route_sip_iff m p w = (λ h. ground arith, λ h. ground arith)

  -- With a configured minimum between 7 and 2^32, a parsed packet is taken for SIP exactly when it is
  -- not RTP for a registered socket, is at least as long as the minimum, and has the characters
  -- "SI" at an offset below the minimum less 7.
  route-sip_iff :
      (min_sip_size : ℕ) (p : TlayerPacket A) (w : World A)
      → sip_ident_len ≤ min_sip_size
      → min_sip_size < 2 ^ 32
      → (route min_sip_size p w ≡ Route.sip) ↔ (
          (is_rtp p w ≡ false)
          × (min_sip_size ≤ p.udp_payload.size)
          × ((j : ℕ) × (j + sip_ident_len < min_sip_size)
              × (p.udp_payload.byte j ≡ b'S')
              × (p.udp_payload.byte (j + 1) ≡ b'I')))
  route-sip_iff m p w l u =
      let ident = is_sip_iff p.udp_payload.byte m l u in
      (
        λ h. let (r, s, t) = (route_sip_iff m p w).0 h in (r, s, ident.0 t),
        λ h. (route_sip_iff m p w).1 (h.0, h.1, ident.1 h.2),
      )

  unparsed_not_sip {ℓ} :
      {B : Type ℓ} (w : World A) → sorted Route.unparsed w ≡ sorted Route.sip w → B
  unparsed_not_sip w h = absurd cc

  none_not_some {ℓ} : {B : Type ℓ} (q : TlayerPacket A) → none ≡ some q → B
  none_not_some q h = absurd cc

  some_same : (q r : TlayerPacket A) → some q ≡ some r → r ≡ q
  some_same q r h = cc

  deliver_sip :
      (r : Route) (p : TlayerPacket A) (w : World A)
      → (deliver r p w ≡ sorted Route.sip w) ↔ (r ≡ Route.sip)
  unfolding deliver
  deliver_sip Route.unparsed p w = (λ h. absurd cc, λ h. absurd cc)
  deliver_sip (Route.rtp s) p w = (λ h. ground arith, λ h. absurd cc)
  deliver_sip Route.too_short p w = (λ h. absurd cc, λ h. absurd cc)
  deliver_sip Route.sip p w = (λ h. refl, λ h. refl)
  deliver_sip Route.unknown p w = (λ h. absurd cc, λ h. absurd cc)

  -- With a configured minimum between 7 and 2^32, a round hands a packet on as SIP, and changes nothing,
  -- exactly if its UDP layer can be parsed, it is not RTP of version 2 for a registered socket, it is
  -- at least as long as the minimum, and it has the characters "SI" at an offset below the minimum
  -- less 7.
  pub udp_round-sip_iff :
      (min_sip_size : ℕ) (p : TlayerPacket A) (w : World A)
      → sip_ident_len ≤ min_sip_size
      → min_sip_size < 2 ^ 32
      → (udp_round min_sip_size p w ≡ sorted Route.sip w) ↔ (
          (q : TlayerPacket A) × (parse_transportlayer p ≡ some q)
          × (is_rtp q w ≡ false)
          × (min_sip_size ≤ q.udp_payload.size)
          × ((j : ℕ) × (j + sip_ident_len < min_sip_size)
              × (q.udp_payload.byte j ≡ b'S')
              × (q.udp_payload.byte (j + 1) ≡ b'I')))
  unfolding udp_round
  udp_round-sip_iff m p w l u = elim (Option-cases (parse_transportlayer p)) [
    | inl e ↦
        let round : udp_round m p w ≡ sorted Route.unparsed w = rw (e, udp_round) refl in
        (λ h. unparsed_not_sip w (sym round ∙ h), λ h. none_not_some h.0 (sym e ∙ h.1))
    | inr (q, e) ↦
        let round : udp_round m p w ≡ deliver (route m q w) q w = rw (e, udp_round) refl in
        let (sip, back) = deliver_sip (route m q w) q w in
        let (there, here) = route-sip_iff m q w l u in
        (
          λ h. let (r, s, t) = there (sip (sym round ∙ h)) in (q, e, r, s, t),
          λ (q', e', r, s, t).
              let same = some_same q q' (sym e ∙ e') in round ∙ back (here (rw⁻¹ same (r, s, t))),
        )
  ]
