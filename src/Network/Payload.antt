-- ===== src/Network/Payload.antt =====
-- The payload of a UDP packet, `UdpPacket` of src/network/TlayerPacket.hpp: a place in the capture
-- buffer, which holds some byte at every index, and the size that the parser computed.
use callx.Prelude.{ℕ}

pub record Payload : Type 0 where
  pub byte : ℕ → ℕ
  pub size : ℕ
