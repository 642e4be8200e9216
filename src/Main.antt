-- ===== src/Main.antt =====
-- src/main/callx.cpp: the start of the program, its threads and its end.
pub mod Options
pub mod PidFile
pub mod Daemon
pub mod Running
pub mod Shutdown
pub mod Beside
pub mod Program
pub mod Ready
pub mod Signals
