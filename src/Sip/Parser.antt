-- ===== src/Sip/Parser.antt =====
-- src/sip/SipPacket.cpp: the parser of SIP messages and of their media description.
pub mod Grammar
pub mod Message
pub mod Fields
pub mod Sdp
pub mod Header
pub mod Reading
pub mod Outcomes
pub mod Names
pub mod Via
