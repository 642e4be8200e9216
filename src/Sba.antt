-- ===== src/Sba.antt =====
-- src/sba: the events of the callers, the six analyses of them, and the incidents they report.
pub mod Types
pub mod Counts
pub mod Analysis
pub mod Bounds
pub mod Incidents
pub mod Worst
pub mod Division
