-- ===== src/Core/Bid.antt =====
-- crates/auction-core/src/state.rs, lines 26-61: the collateral record, a bid admitted into the
-- batch window, and the window.
use dutch_auction.Base.{ℕ, Option, List}
use dutch_auction.Base.Int.{ℤ}
use dutch_auction.Base.Word.{saturating_sub_i64}
use dutch_auction.Proto.Ids.{ParticipantId, IdempotencyKey, Seq}
use dutch_auction.Proto.Money.{Price, Qty}

pub record Collateral : Type 0 where
  pub limit : ℤ
  pub committed : ℤ

-- `Collateral::default`
abbrev pub no_collateral : Collateral
no_collateral = record { limit = ℤ.pos 0; committed = ℤ.pos 0 }

unfoldable pub available : Collateral → ℤ
unfolding saturating_sub_i64
available c = saturating_sub_i64 c.limit c.committed

pub record PendingBid : Type 0 where
  pub seq : Seq
  pub participant : ParticipantId
  pub key : IdempotencyKey
  pub qty : Qty
  pub priority : Price
  pub reserve_price : Price
  pub resting_limit : Option Price

pub record OpenWindow : Type 0 where
  pub index : ℕ
  pub price : Price
  pub bids : List PendingBid
