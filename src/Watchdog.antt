-- ===== src/Watchdog.antt =====
-- src/watchdog and `CallMap::handleCallTimeouts`: the thread that ends calls by their age.
pub mod Timeouts
pub mod Frame
pub mod Expiry
pub mod Commit
