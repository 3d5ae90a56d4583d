-- ===== src/Ffm.antt =====
-- src/ffm.c and include/wolftrust/ffm.h: the secure partition manager's connections, messages,
-- service queues and signals.
pub mod State
pub mod Handle
pub mod Lookup
pub mod Pools
pub mod Queue
pub mod Waiting
pub mod Vectors
pub mod Client
pub mod Service
pub mod Finish
pub mod Sync
pub mod Signals
pub mod Recovery
pub mod Init
