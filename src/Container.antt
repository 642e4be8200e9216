-- ===== src/Container.antt =====
-- src/container: the maps and queues that the threads share.
pub mod Map
pub mod Multimap
pub mod FriendlyMap
pub mod Queue
pub mod Fifo
pub mod Entries
pub mod Pops
