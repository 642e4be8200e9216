-- ===== src/Network.antt =====
-- src/network: addresses, captured frames, and the sorting of UDP packets.
pub mod Payload
pub mod SocketAddress
pub mod Frame
pub mod SipIdent
pub mod UdpHandler
pub mod Sorting
pub mod Dispatcher
pub mod Flow
pub mod Conservation
pub mod Exhaustion
