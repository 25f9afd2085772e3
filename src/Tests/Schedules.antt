-- ===== src/Tests/Schedules.antt =====
-- crates/auction-core/src/schedule.rs, on the schedule of the small auction.
use dutch_auction.Base.{◌≡◌, refl, arith}
use dutch_auction.Base.Int.{pos, ◌≤ℤ◌}
use dutch_auction.Core.Schedule.{price_at, time_to_reach}
use dutch_auction.Core.Schedule.Bounds.{IsPublished, price_at_bounds, price_at_antitone}
use dutch_auction.Core.Schedule.Reach.{IsUsual, IsFirstAt, time_to_reach_first}
use dutch_auction.Tests.Data.{schedule}

abbrev published : IsPublished schedule
published = record { ordered = omega arith; descending = omega arith }

abbrev usual : IsUsual schedule
usual = record {
  published = published;
  start_fits = omega arith;
  floor_fits = omega arith;
  spread_fits = omega arith;
  long = omega arith;
}

second_step : price_at schedule 2_999 ≡ pos 980
unfolding price_at
second_step = refl

price_at_bounds_example :
    (pos 100 ≤ℤ price_at schedule 2_999) × (price_at schedule 2_999 ≤ℤ pos 1_000)
price_at_bounds_example = price_at_bounds schedule 2_999 published

price_at_antitone_example : price_at schedule 5_000 ≤ℤ price_at schedule 2_999
price_at_antitone_example = price_at_antitone schedule 2_999 5_000 published (omega arith)

time_to_reach_first_example :
    IsFirstAt (price_at schedule) (pos 955) (time_to_reach schedule (pos 955))
time_to_reach_first_example = time_to_reach_first schedule (pos 955) usual
