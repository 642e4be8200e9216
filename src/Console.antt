-- ===== src/Console.antt =====
-- src/console: the commands of a session.
pub mod Session
pub mod Lines
pub mod Maps
pub mod Report
pub mod Empty
pub mod Server
