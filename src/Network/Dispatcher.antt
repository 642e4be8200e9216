-- ===== src/Network/Dispatcher.antt =====
-- The loop of `TlayerDispatcher::worker`, src/network/TlayerDispatcher.cpp: frames with a UDP payload
-- go to the `UdpPacketQueue`, all others back to the pool.
use callx.Container.Queue.{Queue}
use callx.Container.Queue
use callx.Network.Frame.{
  TlayerPacket, parse_netlayer, parse_netlayer_iff, word, ethertype_ip, ether_header_len,
}
use callx.Network.SocketAddress.{tp_udp}
use callx.Prelude.{
  ℕ, ◌+◌, ◌<◌, ◌^◌, ◌≡◌, refl, sym, ap, ◌∙◌, Bool, true, false, List, [], ◌∷◌, ◌++◌, Option, none,
  some, arith, if◌then◌else◌, ◌==◌, ◌&&◌, All, Option-cases, inl, inr,
}
use mathlib.Core.List.{append-nil, append_assoc}

module _ {A : Type 0} (address_of : (ℕ → ℕ) → A) where
  -- One frame of the loop.
  unfoldable pub dispatch : TlayerPacket A → Queue (TlayerPacket A) → Queue (TlayerPacket A)
  dispatch p q = elim (parse_netlayer address_of p) [
    | none ↦ q
    | some parsed ↦ if parsed.dst.proto == tp_udp then Queue.push parsed q else q
  ]

  unfoldable pub dispatch_all :
      List (TlayerPacket A) → Queue (TlayerPacket A) → Queue (TlayerPacket A)
  dispatch_all [] q = q
  dispatch_all (p ∷ ps) q = dispatch_all ps (dispatch p q)

  -- IPv4 by the Ethernet type, and UDP by the protocol field of the IP header.
  abbrev pub is_udp_frame : TlayerPacket A → Bool
  is_udp_frame p = word p.buffer 12 == ethertype_ip && p.buffer (ether_header_len + 9) == tp_udp

  abbrev pub or_frame : TlayerPacket A → Option (TlayerPacket A) → TlayerPacket A
  or_frame p none = p
  or_frame p (some parsed) = parsed

  -- The UDP frames, parsed.
  abbrev pub udp_frames : List (TlayerPacket A) → List (TlayerPacket A)
  udp_frames [] = []
  udp_frames (p ∷ ps) =
      (if is_udp_frame p then or_frame p (parse_netlayer address_of p) ∷ [] else [])
      ++ udp_frames ps

  proto-parse_netlayer :
      (p parsed : TlayerPacket A)
      → parse_netlayer address_of p ≡ some parsed
      → parsed.dst.proto ≡ p.buffer (ether_header_len + 9)
  unfolding parse_netlayer
  proto-parse_netlayer p parsed e = ground arith

  is_udp_frame-none :
      (p : TlayerPacket A)
      → p.caplen < 2 ^ 32
      → parse_netlayer address_of p ≡ none
      → is_udp_frame p ≡ false
  is_udp_frame-none p l e = ground (arith, parse_netlayer_iff address_of p l)

  is_udp_frame-some :
      (p parsed : TlayerPacket A)
      → p.caplen < 2 ^ 32
      → parse_netlayer address_of p ≡ some parsed
      → is_udp_frame p ≡ (parsed.dst.proto == tp_udp)
  is_udp_frame-some p parsed l e =
      ground (arith, parse_netlayer_iff address_of p l, proto-parse_netlayer p parsed e)

  items_pushed :
      (b : Bool) (parsed : TlayerPacket A) (q : Queue (TlayerPacket A))
      → (if b then Queue.push parsed q else q).items ≡ q.items ++ (if b then parsed ∷ [] else [])
  unfolding Queue.push
  items_pushed true parsed q = refl
  items_pushed false parsed q = sym (append-nil q.items)

  pub items-dispatch :
      (p : TlayerPacket A) (q : Queue (TlayerPacket A))
      → p.caplen < 2 ^ 32
      → (dispatch p q).items
        ≡ q.items ++ (if is_udp_frame p then or_frame p (parse_netlayer address_of p) ∷ [] else [])
  unfolding dispatch Queue.push
  items-dispatch p q l = elim (Option-cases (parse_netlayer address_of p)) [
    | inl e ↦ rw (e, dispatch) (rw (is_udp_frame-none p l e) (sym (append-nil q.items)))
    | inr (parsed, e) ↦
        rw (e, dispatch)
          (rw (is_udp_frame-some p parsed l e) (items_pushed (parsed.dst.proto == tp_udp) parsed q))
  ]

  -- The frames that reach the UDP queue are the IPv4 frames with the UDP protocol number, parsed, in
  -- the order of their capture, behind what the queue holds; for captured lengths below 2^32.
  items-dispatch_all :
      (ps : List (TlayerPacket A)) (q : Queue (TlayerPacket A))
      → All (λ p. p.caplen < 2 ^ 32) ps
      → (dispatch_all ps q).items ≡ q.items ++ udp_frames ps
  unfolding dispatch_all
  items-dispatch_all [] q l = sym (append-nil q.items)
  items-dispatch_all (p ∷ ps) q l =
      items-dispatch_all ps (dispatch p q) l.1
      ∙ ap (λ xs. xs ++ udp_frames ps) (items-dispatch p q l.0)
      ∙ append_assoc q.items _ (udp_frames ps)
