-- ===== src/Tests.antt =====
-- Concrete runtimes, and the theorems of the development applied to them.
pub mod Samples
pub mod Queues
pub mod Slots
pub mod Effects
pub mod Sessions
pub mod Ports
pub mod Startup
