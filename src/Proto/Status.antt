-- ===== src/Proto/Status.antt =====
-- crates/auction-proto/src/lib.rs: why a command was refused, and the lifecycle of an auction.
use dutch_auction.Base.{Bool, true, false}
use dutch_auction.Proto.Money.{Price}

pub data RejectReason : Type 0 where
  not_live : RejectReason
  price_moved : Price → RejectReason
  supply_exhausted insufficient_collateral zero_quantity rate_limited busy : RejectReason
  limit_above_clock : Price → RejectReason
  unfilled unknown_bid : RejectReason

pub data Status : Type 0 where
  pending live cleared cancelled : Status

unfoldable pub accepts_bids : Status → Bool
accepts_bids live = true
accepts_bids _ = false

unfoldable pub is_terminal : Status → Bool
is_terminal cleared = true
is_terminal cancelled = true
is_terminal _ = false

-- `self.status != Status::Pending`, negated
unfoldable pub is_pending : Status → Bool
is_pending pending = true
is_pending _ = false
