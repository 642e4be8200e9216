-- ===== src/Examples.antt =====
-- The theorems at concrete inputs. IP addresses are numbers here.
mod Data
mod Parsing
mod Sound
mod Settings
mod Control
mod Dialog
mod Interrupted
mod Network
mod Analysis
mod Program
