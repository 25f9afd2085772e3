-- ===== src/Core/Config.antt =====
-- crates/auction-core/src/config.rs: the terms of one auction.
use dutch_auction.Base.{ℕ}
use dutch_auction.Base.Word.{unsigned_abs}
use dutch_auction.Proto.Ids.{AuctionId}
use dutch_auction.Proto.Money.{Price, Qty}
use dutch_auction.Proto.Time.{Nanos, from_millis}
use dutch_auction.Core.Schedule.{ScheduleKind, stepped, linear, PriceSchedule}
use dutch_auction.Core.Schedule

pub record AuctionConfig : Type 0 where
  pub auction_id : AuctionId
  pub total_supply : Qty
  pub schedule : PriceSchedule
  pub batch_window : Nanos
  pub price_tolerance : ℕ

unfoldable pub kind_tolerance : ScheduleKind → ℕ
unfolding unsigned_abs
kind_tolerance (stepped _ step_size) = unsigned_abs step_size
kind_tolerance (linear rate_per_sec) = unsigned_abs rate_per_sec

-- `default_tolerance`: one step's worth of decay
unfoldable pub default_tolerance : PriceSchedule → ℕ
unfolding kind_tolerance
default_tolerance s = kind_tolerance s.kind

-- `AuctionConfig::new`
unfoldable pub new_config : AuctionId → Qty → PriceSchedule → AuctionConfig
unfolding default_tolerance from_millis
new_config auction_id total_supply schedule = record {
  auction_id = auction_id;
  total_supply = total_supply;
  schedule = schedule;
  batch_window = from_millis 1;
  price_tolerance = default_tolerance schedule;
}

unfoldable pub with_batch_window : AuctionConfig → Nanos → AuctionConfig
with_batch_window c width = record c { batch_window = width }

unfoldable pub with_price_tolerance : AuctionConfig → ℕ → AuctionConfig
with_price_tolerance c tolerance = record c { price_tolerance = tolerance }

unfoldable pub start_price : AuctionConfig → Price
start_price c = c.schedule.start_price

unfoldable pub floor_price : AuctionConfig → Price
floor_price c = c.schedule.floor_price

-- The clock price at `elapsed`.
unfoldable pub price_at : AuctionConfig → Nanos → Price
price_at c elapsed = Schedule.price_at c.schedule elapsed
