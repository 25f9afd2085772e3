-- ===== src/Core/Event.antt =====
-- crates/auction-core/src/event.rs: everything the state machine says happened.
use dutch_auction.Base.{ℕ, Option}
use dutch_auction.Base.Int.{ℤ}
use dutch_auction.Proto.Ids.{ParticipantId, IdempotencyKey, Seq}
use dutch_auction.Proto.Money.{Price, Qty, checked_mul_qty}
use dutch_auction.Proto.Status.{RejectReason}

abbrev pub FillId : Type 0
FillId = ℕ

pub record Fill : Type 0 where
  pub id : FillId
  pub seq : Seq
  pub participant : ParticipantId
  pub key : IdempotencyKey
  pub qty : Qty
  pub price : Price

unfoldable pub consideration : Fill → Option ℤ
unfolding checked_mul_qty
consideration f = checked_mul_qty f.price f.qty

pub data Outcome : Type 0 where
  queued resting : Qty → Outcome
  filled : Qty → Price → Outcome
  rejected : RejectReason → Outcome
  cancelled : Outcome
  filled_then_cancelled : Qty → Price → Outcome

pub data Event : Type 0 where
  -- start_price, supply
  opened : Price → Qty → Event
  -- participant, limit
  collateral_set : ParticipantId → ℤ → Event
  -- key, participant, qty, price
  queued : IdempotencyKey → ParticipantId → Qty → Price → Event
  -- key, participant, qty, limit
  rested : IdempotencyKey → ParticipantId → Qty → Price → Event
  -- key, participant, qty
  resting_cancelled : IdempotencyKey → ParticipantId → Qty → Event
  filled : Fill → Event
  rejected : IdempotencyKey → RejectReason → Event
  duplicate : IdempotencyKey → Outcome → Event
  -- id, from, to
  repriced : FillId → Price → Price → Event
  -- price, filled, unsold
  cleared : Price → Qty → Qty → Event
  cancelled : Event
