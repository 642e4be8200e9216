-- ===== src/Output.antt =====
-- src/output: the recordings as wave files.
pub mod Wave
pub mod Files
pub mod Reader
pub mod RoundTrip
pub mod EndToEnd
pub mod Socket
pub mod Limits
pub mod Delivery
pub mod Stream
pub mod Database
pub mod Worker
pub mod Kept
