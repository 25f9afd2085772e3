-- ===== src/Core/Command.antt =====
-- crates/auction-core/src/command.rs: everything that can happen to an auction.
use dutch_auction.Base.{Bool, true, false}
use dutch_auction.Base.Int.{ℤ}
use dutch_auction.Proto.Ids.{ParticipantId, IdempotencyKey}
use dutch_auction.Proto.Money.{Price, Qty}

pub data BidKind : Type 0 where
  -- expected_price
  take : Price → BidKind
  -- limit
  resting : Price → BidKind

pub data Command : Type 0 where
  opening : Command
  set_collateral : ParticipantId → ℤ → Command
  submit_bid : ParticipantId → IdempotencyKey → Qty → BidKind → Command
  cancel_resting : ParticipantId → IdempotencyKey → Command
  tick cancel : Command

-- `BidKind::priority_price`
unfoldable pub priority_price : BidKind → Price → Price
priority_price (take _) clock = clock
priority_price (resting limit) clock = limit

unfoldable pub is_resting : BidKind → Bool
is_resting (take _) = false
is_resting (resting _) = true
