-- ===== src/Examples/Network.antt =====
-- The theorems on src/network and src/container at concrete inputs.
use callx.Examples.Data.{nat_key, media}
use callx.Network.Frame.{TlayerPacket, parse_netlayer}
use callx.Container.Queue.{Queue}
use callx.Network.SocketAddress.{tp_udp}
use callx.Network.SipIdent.{is_sip, is_sip_iff, sip_ident_len}
use callx.Network.SocketAddress.{SocketAddress, IsStrictOrder, less, less-IsStrictOrder}
use callx.Container.Queue.{empty, push, wait_and_pop}
use callx.Main.Running.{fill_pool}
use callx.Network.Conservation.{Conserves, steps-Conserves_filled}
use callx.Network.Exhaustion.{held-blocked}
use callx.Network.Flow.{
  blocked, release, Flow, Captured, stored, callback, fill, dispatch_round, capture, sort, Steps,
  stop, then_step, filled_pool,
}
use callx.Prelude.{
  some, refl, pos, [], if◌then◌else◌, ℕ, ◌+◌, ◌<◌, ◌≡◌, ◌↔◌, true, before, arith, ◌==◌, false,
  string_key,
}

nat-IsStrictOrder : IsStrictOrder {A = ℕ} before
nat-IsStrictOrder = record {
  irrefl = λ a. ground arith;
  trans = λ a b c h l. ground arith;
  total = λ a b h l. ground arith;
}

less-IsStrictOrder_example : IsStrictOrder {A = SocketAddress ℕ} less
less-IsStrictOrder_example = less-IsStrictOrder nat-IsStrictOrder

-- Every octet is 8, so the frame's type is 0x808.
abbrev frame : TlayerPacket ℕ
frame = record {
  buffer = λ i. 8;
  caplen = 60;
  ip_payload = record { byte = λ i. 8; size = 4 };
  udp_payload = record { byte = λ i. 8; size = 0 };
  src = media;
  dst = media;
}

abbrev first_octet : (ℕ → ℕ) → ℕ
first_octet b = b 0

-- "SI" and then dots.
abbrev looks_like_sip : ℕ → ℕ
looks_like_sip i = elim (i == 0) [
  | true ↦ b'S'
  | false ↦ elim (i == 1) [ true ↦ b'I' | false ↦ b'.' ]
]

is_sip_iff_example : (is_sip looks_like_sip 10 ≡ true) ↔ (
    (j : ℕ) × (j + sip_ident_len < 10)
    × (looks_like_sip j ≡ b'S')
    × (looks_like_sip (j + 1) ≡ b'I'))
is_sip_iff_example = is_sip_iff looks_like_sip 10 (omega arith) (omega arith)

-- An IPv4 frame of UDP: every octet is 8 but the protocol.
abbrev udp_frame : TlayerPacket ℕ
udp_frame = record frame { buffer = λ i. if i == 23 then tp_udp else if i == 13 then 0 else 8 }

abbrev no_frames : Queue (TlayerPacket ℕ)
no_frames = record { items = []; activated = true; size_max = 0 }

-- Two packets, of which one takes a frame of UDP that the dispatcher sorts.
abbrev pool : Queue (TlayerPacket ℕ)
pool = fill_pool (pos 2) frame empty

abbrev stored_flow : Captured ℕ → Flow ℕ
stored_flow (stored f) = f
stored_flow _ = filled_pool pool

abbrev one_stored : Flow ℕ
one_stored = stored_flow (callback 60 udp_frame.buffer (filled_pool pool))

one_stored_lem : callback 60 udp_frame.buffer (filled_pool pool) ≡ stored one_stored
unfolding callback fill fill_pool empty push wait_and_pop
one_stored_lem = refl

captured_and_sorted : Steps first_octet (filled_pool pool) (dispatch_round first_octet one_stored)
captured_and_sorted =
    then_step (filled_pool pool) one_stored (dispatch_round first_octet one_stored)
      (then_step (filled_pool pool) (filled_pool pool) one_stored (stop (filled_pool pool))
        (capture 60 udp_frame.buffer (filled_pool pool) one_stored (omega arith) one_stored_lem))
      (sort one_stored)

steps-Conserves_filled_example : Conserves first_octet 2 (dispatch_round first_octet one_stored)
steps-Conserves_filled_example =
    steps-Conserves_filled first_octet 2 frame (dispatch_round first_octet one_stored)
      captured_and_sorted

-- A pool of one packet, of which a frame that is not UDP gets hold.
abbrev one_packet : Queue (TlayerPacket ℕ)
one_packet = fill_pool (pos 1) frame empty

abbrev other_stored : Flow ℕ
other_stored = stored_flow (callback 60 frame.buffer (filled_pool one_packet))

other_stored_lem : callback 60 frame.buffer (filled_pool one_packet) ≡ stored other_stored
unfolding callback fill fill_pool empty push wait_and_pop
other_stored_lem = refl

captured_and_held :
    Steps first_octet (filled_pool one_packet) (dispatch_round first_octet other_stored)
captured_and_held =
    then_step (filled_pool one_packet) other_stored (dispatch_round first_octet other_stored)
      (then_step (filled_pool one_packet) (filled_pool one_packet) other_stored
        (stop (filled_pool one_packet))
        (capture 60 frame.buffer (filled_pool one_packet) other_stored (omega arith)
          other_stored_lem))
      (sort other_stored)

is_held :
    (dispatch_round first_octet other_stored).tlayer_packet ≡ some (fill 60 frame.buffer frame)
unfolding dispatch_round release callback fill fill_pool empty push wait_and_pop parse_netlayer
is_held = refl

held-blocked_example :
    let f = dispatch_round first_octet other_stored in
    (callback 60 frame.buffer f ≡ blocked) × (dispatch_round first_octet f ≡ f)
held-blocked_example =
    held-blocked first_octet frame (fill 60 frame.buffer frame)
      (dispatch_round first_octet other_stored) 60 frame.buffer captured_and_held is_held
