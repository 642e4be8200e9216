-- ===== src/System.antt =====
-- The two threads that share the calls: the SIP processor and the watchdog.
pub mod Steps
pub mod Known
pub mod Interleaving
pub mod Interrupted
pub mod Expired
pub mod Kept
pub mod Wedge
