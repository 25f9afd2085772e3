-- ===== src/Engine.antt =====
-- crates/auction-engine: the single writer.
pub mod Clock
pub mod Time
pub mod Run
pub mod Next
pub mod Acks
pub mod Standby
pub mod Promises
pub mod Ingress
pub mod Snapshots
