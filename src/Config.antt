-- ===== src/Config.antt =====
-- src/config: the configuration file and its values.
pub mod File
pub mod RoundTrip
pub mod Values
pub mod Checks
