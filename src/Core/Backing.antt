-- ===== src/Core/Backing.antt =====
-- docs/invariants.md, I9, over crates/auction-core/src/state.rs: what a participant has committed is
-- the cost of the bids that are in flight and of the fills, and never more than what was posted.
pub mod Moves
pub mod Settled
pub mod Cleared
pub mod Prices
pub mod Flushed
pub mod Bids
pub mod Admitted
pub mod Ticks
pub mod Handled
pub mod Reachable
pub mod Charged
use dutch_auction.Base.{
  ℕ, ◌+◌, ◌*◌, ◌≤◌, ◌<◌, ◌≡◌, All, List, Option, none, some, ◌==◌, if◌then◌else◌, BTreeMap, get_or,
  total_of,
}
use dutch_auction.Base.Int.{ℤ, pos, pos_part, neg_part, ◌≤ℤ◌}
use dutch_auction.Base.Word.{i64_max}
use dutch_auction.Proto.Ids.{ParticipantId}
use dutch_auction.Proto.Money.{Price, Qty}
use dutch_auction.Core.Event.{Fill}
use dutch_auction.Core.Ladder.{RestingBid, Level}
use dutch_auction.Core.Bid.{Collateral, no_collateral, PendingBid, OpenWindow}
use dutch_auction.Core.State.{AuctionState}

-- The cost of a quantity at a price that is not negative.
abbrev pub cost : Price → Qty → ℕ
cost price qty = pos_part price * qty

-- The part of a cost that `p` owes.
unfoldable pub owes : ParticipantId → ParticipantId → Price → Qty → ℕ
owes p who price qty = if who == p then cost price qty else 0

-- A price that is not negative, and a cost that an i64 can hold.
pub record IsFit (price : Price) (qty : Qty) : Type 0 where
  pub signless : neg_part price ≡ 0
  pub small_qty : qty ≤ i64_max
  pub small_cost : cost price qty ≤ i64_max

abbrev pub window_owed : ParticipantId → List PendingBid → ℕ
window_owed p = total_of (λ (b : PendingBid). owes p b.participant b.reserve_price b.qty)

abbrev pub open_owed : ParticipantId → Option OpenWindow → ℕ
open_owed p none = 0
open_owed p (some w) = window_owed p w.bids

abbrev pub rests_owed : ParticipantId → List RestingBid → ℕ
rests_owed p = total_of (λ (b : RestingBid). owes p b.participant b.limit b.qty)

abbrev pub ladder_owed : ParticipantId → List Level → ℕ
ladder_owed p = total_of (λ (l : Level). rests_owed p l.1)

abbrev pub fills_owed : ParticipantId → List Fill → ℕ
fills_owed p = total_of (λ (f : Fill). owes p f.participant f.price f.qty)

-- What `p` owes in all: the bids in the window at their reserved prices, those on the ladder at
-- their limits, and the fills at theirs.
abbrev pub owed : ParticipantId → AuctionState → ℕ
owed p s = open_owed p s.window + ladder_owed p s.resting.levels + fills_owed p s.fills

-- The collateral of `p` in a map has `n` committed, and a limit of at most `cap`.
pub record Holds (p : ParticipantId) (cap n : ℕ) (m : BTreeMap Collateral) : Type 0 where
  pub committed : (get_or p no_collateral m).committed ≡ pos n
  pub limited : (get_or p no_collateral m).limit ≤ℤ pos cap

abbrev pub RestFit : RestingBid → Type 0
RestFit b = IsFit b.limit b.qty

abbrev pub FillFit : Fill → Type 0
FillFit f = IsFit f.price f.qty × (0 < f.qty)

-- The collateral of `p` backs the ladder, the fills, and `extra` besides, within the cap.
pub record Ledger (p : ParticipantId) (cap extra : ℕ) (s : AuctionState) : Type 0 where
  pub holds :
      Holds p cap (extra + (ladder_owed p s.resting.levels + fills_owed p s.fills)) s.collateral
  pub within : extra + (ladder_owed p s.resting.levels + fills_owed p s.fills) ≤ cap
  pub ladder_fit : All (λ (l : Level). All RestFit l.1) s.resting.levels
  pub fills_fit : All FillFit s.fills

-- A resting bid is reserved at its limit.
abbrev pub LimitIs : Option Price → Price → Type 0
LimitIs none reserve_price = Unit
LimitIs (some limit) reserve_price = limit ≡ reserve_price

-- A bid of a window at `price` was reserved at that price or above.
abbrev pub BidFit : Price → PendingBid → Type 0
BidFit price b =
    IsFit b.reserve_price b.qty
    × (pos_part price ≤ pos_part b.reserve_price)
    × LimitIs b.resting_limit b.reserve_price
