-- ===== src/Core/Schedule.antt =====
-- crates/auction-core/src/schedule.rs: the price clock, a function of the elapsed nanoseconds.
pub mod Bounds
pub mod Reach
use dutch_auction.Base.{ℕ, ◌/◌, Bool, Option, none, some, ◌==◌, if◌then◌else◌, max}
use dutch_auction.Base.Int.{ℤ, pos, ◌+ℤ◌, ◌-ℤ◌, ◌*ℤ◌, ltb_ℤ, leb_ℤ, eq_ℤ, quot_ℕ, quot_ℤ}
use dutch_auction.Base.Word.{
  i64_max, u64_max, try_i64, try_u64, unwrap_or, saturating_sub_i64, saturating_mul_i64,
  saturating_mul_u64,
}
use dutch_auction.Proto.Money.{Price, clamp_to}
use dutch_auction.Proto.Time.{Nanos}

pub data ScheduleKind : Type 0 where
  -- step_duration, step_size
  stepped : Nanos → ℤ → ScheduleKind
  -- rate_per_sec
  linear : ℤ → ScheduleKind

pub record PriceSchedule : Type 0 where
  pub start_price : Price
  pub floor_price : Price
  pub kind : ScheduleKind

-- `PriceSchedule::stepped`: `none` is a failed assertion.
unfoldable pub new_stepped : Price → Price → Nanos → ℤ → Option PriceSchedule
new_stepped start_price floor_price step_duration step_size =
    if leb_ℤ floor_price start_price
    then if leb_ℤ (pos 0) step_size
      then some (record {
        start_price = start_price;
        floor_price = floor_price;
        kind = stepped step_duration step_size;
      })
      else none
    else none

-- `PriceSchedule::linear`: `none` is a failed assertion.
unfoldable pub new_linear : Price → Price → ℤ → Option PriceSchedule
new_linear start_price floor_price rate_per_sec =
    if leb_ℤ floor_price start_price
    then if leb_ℤ (pos 0) rate_per_sec
      then some (record {
        start_price = start_price;
        floor_price = floor_price;
        kind = linear rate_per_sec;
      })
      else none
    else none

-- `saturating_drop`
unfoldable pub saturating_drop : ℕ → ℤ → ℤ
unfolding try_i64 saturating_mul_i64
saturating_drop steps step_size =
    saturating_mul_i64 (unwrap_or (try_i64 (pos steps)) (pos i64_max)) step_size

-- The drop of a linear clock. A u64 times an i64 fits an i128, so nothing saturates there.
unfoldable pub linear_drop : Nanos → ℤ → ℤ
unfolding ◌*ℤ◌ quot_ℕ try_i64
linear_drop elapsed rate_per_sec =
    unwrap_or (try_i64 (quot_ℕ (pos elapsed *ℤ rate_per_sec) 1_000_000_000)) (pos i64_max)

-- The last line of `price_at`: the start price less the drop, within the published bounds.
unfoldable pub dropped_price : PriceSchedule → ℤ → Price
unfolding saturating_sub_i64 clamp_to
dropped_price s drop = clamp_to (saturating_sub_i64 s.start_price drop) s.floor_price s.start_price

unfoldable pub price_at_kind : ScheduleKind → PriceSchedule → Nanos → Price
unfolding saturating_drop linear_drop dropped_price
price_at_kind (stepped step_duration step_size) s elapsed =
    if step_duration == 0
    then s.floor_price
    else dropped_price s (saturating_drop (elapsed / step_duration) step_size)
price_at_kind (linear rate_per_sec) s elapsed = dropped_price s (linear_drop elapsed rate_per_sec)

-- `price_at`
unfoldable pub price_at : PriceSchedule → Nanos → Price
unfolding price_at_kind
price_at s elapsed = price_at_kind s.kind s elapsed

-- `ceil_div`, on i128
unfoldable pub ceil_div : ℤ → ℤ → ℤ
unfolding ◌+ℤ◌ ◌-ℤ◌ quot_ℤ
ceil_div numerator denominator = quot_ℤ (numerator +ℤ denominator -ℤ pos 1) denominator

unfoldable pub time_to_drop : ScheduleKind → ℤ → Option Nanos
unfolding ceil_div try_u64 saturating_mul_u64 ◌*ℤ◌
time_to_drop (stepped step_duration step_size) drop_needed =
    if eq_ℤ step_size (pos 0)
    then if eq_ℤ drop_needed (pos 0) then some 0 else none
    else some (
        saturating_mul_u64 (unwrap_or (try_u64 (ceil_div drop_needed step_size)) u64_max)
          (max step_duration 1))
time_to_drop (linear rate_per_sec) drop_needed =
    if eq_ℤ rate_per_sec (pos 0)
    then if eq_ℤ drop_needed (pos 0) then some 0 else none
    else some
        (unwrap_or (try_u64 (ceil_div (drop_needed *ℤ pos 1_000_000_000) rate_per_sec)) u64_max)

-- `time_to_reach`
unfoldable pub time_to_reach : PriceSchedule → Price → Option Nanos
unfolding time_to_drop saturating_sub_i64
time_to_reach s target =
    if ltb_ℤ s.start_price target
    then some 0
    else if ltb_ℤ target s.floor_price
    then none
    else time_to_drop s.kind (saturating_sub_i64 s.start_price target)

unfoldable pub at_floor : PriceSchedule → Nanos → Bool
unfolding price_at
at_floor s elapsed = eq_ℤ (price_at s elapsed) s.floor_price
