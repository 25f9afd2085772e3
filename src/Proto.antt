-- ===== src/Proto.antt =====
-- crates/auction-proto: the types that every crate speaks.
pub mod Money
pub mod Time
pub mod Ids
pub mod Status
