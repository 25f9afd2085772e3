-- ===== src/Core/Outcomes.antt =====
-- docs/invariants.md, I7 and I10, over crates/auction-core/src/state.rs: what is on record for a key.
pub mod Settled
pub mod Handled
pub mod Retries
pub mod InFlight
use dutch_auction.Base.{◌≡◌, refl, Option, some, BTreeMap, lookup}
use dutch_auction.Proto.Ids.{IdempotencyKey}
use dutch_auction.Core.Event.{Outcome}
use dutch_auction.Core.State.{AuctionState}

-- There is an outcome on record for the key.
abbrev pub IsKnown : IdempotencyKey → AuctionState → Type 0
IsKnown key s = (out : Outcome) × (lookup key s.outcomes ≡ some out)
