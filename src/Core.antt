-- ===== src/Core.antt =====
-- crates/auction-core: the deterministic state machine.
pub mod Schedule
pub mod Config
pub mod Command
pub mod Event
pub mod Ladder
pub mod Bid
pub mod Allocate
pub mod State
pub mod Clear
pub mod Matching
pub mod Apply
pub mod Backing
pub mod Invariant
pub mod Outcomes
