-- ===== src/Core/State.antt =====
-- crates/auction-core/src/state.rs: the state, its accessors, and the operations on the collateral
-- and on the record of outcomes. `Out` is the state with the events of one `apply`.
pub mod Terms
use dutch_auction.Base.{
  ℕ, ◌-◌, ◌/◌, Bool, true, false, Option, none, some, List, [], ◌∷◌, ◌++◌, length, ◌==◌,
  if◌then◌else◌, BTreeMap, lookup, insert, get_or,
}
use dutch_auction.Base.Int.{pos, ltb_ℤ}
use dutch_auction.Base.Word.{
  i64_max, unwrap_or, saturating_add_i64, saturating_sub_i64, saturating_add_u64,
  saturating_mul_u64,
}
use dutch_auction.Proto.Ids.{ParticipantId, IdempotencyKey, Seq}
use dutch_auction.Proto.Money.{Price, Qty, checked_mul_qty, saturating_add_qty}
use dutch_auction.Proto.Time.{Nanos}
use dutch_auction.Proto.Status.{Status, RejectReason}
use dutch_auction.Core.Config.{AuctionConfig, price_at}
use dutch_auction.Core.Event.{Fill, Outcome, Event}
use dutch_auction.Core.Ladder.{PriceLadder, new_ladder}
use dutch_auction.Core.Bid.{Collateral, no_collateral, available, PendingBid, OpenWindow}

pub record AuctionState : Type 0 where
  pub config : AuctionConfig
  pub status : Status
  pub supply_remaining : Qty
  pub clearing_price : Option Price
  pub fills : List Fill
  pub next_fill_id : ℕ
  pub resting : PriceLadder
  pub window : Option OpenWindow
  pub outcomes : BTreeMap Outcome
  pub collateral : BTreeMap Collateral
  pub last_seq : Option Seq
  pub now : Nanos

-- `AuctionState::new`
unfoldable pub new_state : AuctionConfig → AuctionState
unfolding new_ladder
new_state config = record {
  config = config;
  status = Status.pending;
  supply_remaining = config.total_supply;
  clearing_price = none;
  fills = [];
  next_fill_id = 0;
  resting = new_ladder;
  window = none;
  outcomes = [];
  collateral = [];
  last_seq = none;
  now = 0;
}

-- `open_window`: the index and the number of bids
unfoldable pub open_window : AuctionState → Option (ℕ × ℕ)
open_window s = elim s.window [ none ↦ none | some w ↦ some (w.index, length w.bids) ]

unfoldable pub outcome : AuctionState → IdempotencyKey → Option Outcome
outcome s key = lookup key s.outcomes

unfoldable pub collateral_of : AuctionState → ParticipantId → Collateral
collateral_of s participant = get_or participant no_collateral s.collateral

unfoldable pub sum_fills : Qty → List Fill → Qty
unfolding saturating_add_qty
sum_fills acc [] = acc
sum_fills acc (f ∷ fs) = sum_fills (saturating_add_qty acc f.qty) fs

unfoldable pub total_filled : AuctionState → Qty
unfolding sum_fills
total_filled s = sum_fills 0 s.fills

-- `price`
unfoldable pub current_price : AuctionState → Price
unfolding price_at
current_price s = unwrap_or s.clearing_price (price_at s.config s.now)

pub record Out : Type 0 where
  pub state : AuctionState
  pub events : List Event

-- `ev.push(event)`
unfoldable pub push_event : Event → Out → Out
push_event e o = record o { events = o.events ++ e ∷ [] }

-- `commit`
unfoldable pub commit : ParticipantId → Price → Qty → BTreeMap Collateral → BTreeMap Collateral
unfolding checked_mul_qty saturating_add_i64
commit participant price qty m =
    let c = get_or participant no_collateral m in
    let amount = unwrap_or (checked_mul_qty price qty) (pos i64_max) in
    insert participant (record c { committed = saturating_add_i64 c.committed amount }) m

-- `release`: in release builds an amount that overflows gives nothing back
unfoldable pub release : ParticipantId → Price → Qty → BTreeMap Collateral → BTreeMap Collateral
unfolding checked_mul_qty saturating_sub_i64
release participant price qty m =
    let c = get_or participant no_collateral m in
    let amount = unwrap_or (checked_mul_qty price qty) (pos 0) in
    insert participant (record c { committed = saturating_sub_i64 c.committed amount }) m

-- `reserve`: the flag, and the map; `entry(..).or_default()` adds the participant also on a refusal
unfoldable pub reserve :
    ParticipantId → Price → Qty → BTreeMap Collateral → Bool × BTreeMap Collateral
unfolding checked_mul_qty available saturating_add_i64
reserve participant price qty m = elim (checked_mul_qty price qty) [
  | none ↦ (false, m)
  | some cost ↦
      let c = get_or participant no_collateral m in
      if ltb_ℤ (available c) cost then (false, insert participant c m) else (
        true,
        insert participant (record c { committed = saturating_add_i64 c.committed cost }) m,
      )
]

-- the `match` of `set_outcome`
unfoldable pub merge_outcome : Option Outcome → Outcome → Outcome
unfolding saturating_add_qty
merge_outcome (some (Outcome.filled prior _)) (Outcome.filled extra at) =
    Outcome.filled (saturating_add_qty prior extra) at
merge_outcome (some (Outcome.filled qty price)) Outcome.cancelled =
    Outcome.filled_then_cancelled qty price
merge_outcome (some (Outcome.filled qty price)) (Outcome.rejected reason) = Outcome.filled qty price
merge_outcome (some (Outcome.filled_then_cancelled qty price)) fresh =
    Outcome.filled_then_cancelled qty price
merge_outcome _ fresh = fresh

unfoldable pub set_outcome : IdempotencyKey → Outcome → AuctionState → AuctionState
unfolding merge_outcome
set_outcome key out s = record s {
  outcomes = insert key (merge_outcome (lookup key s.outcomes) out) s.outcomes;
}

unfoldable pub reject : IdempotencyKey → RejectReason → Out → Out
unfolding set_outcome push_event
reject key reason o =
    push_event (Event.rejected key reason)
      (record o { state = set_outcome key (Outcome.rejected reason) o.state })

-- `release(&mut self.collateral, ..)` followed by `self.reject(..)`
unfoldable pub give_back : ParticipantId → Price → Qty → IdempotencyKey → RejectReason → Out → Out
unfolding release reject
give_back participant price qty key reason o =
    let s = o.state in
    reject key reason
      (record o { state = record s { collateral = release participant price qty s.collateral } })

-- `window_bounds`
unfoldable pub window_bounds : AuctionConfig → Nanos → ℕ × Price
unfolding price_at saturating_mul_u64 saturating_add_u64
window_bounds config ts =
    let width = config.batch_window in
    let index = ts / width in
    let last = saturating_add_u64 (saturating_mul_u64 index width) (width - 1) in
    if width == 0 then (ts, price_at config ts) else (index, price_at config last)

-- `push_pending`: `get_or_insert_with` and `push`
unfoldable pub push_pending : ℕ → Price → PendingBid → AuctionState → AuctionState
push_pending index price bid s = elim s.window [
  | none ↦ record s { window = some (record { index = index; price = price; bids = bid ∷ [] }) }
  | some w ↦ record s { window = some (record w { bids = w.bids ++ bid ∷ [] }) }
]
