-- ===== src/Audio.antt =====
-- src/audio: the sinks that store RTP packets, and the decoding of a finished call.
pub mod RtpSink
pub mod Inactivity
pub mod Tables
pub mod G711
pub mod Expansion
pub mod MemChunk
pub mod Decoding
pub mod Samples
pub mod Storing
pub mod Content
pub mod Recording
pub mod Exit
pub mod Worker
pub mod Conservation
