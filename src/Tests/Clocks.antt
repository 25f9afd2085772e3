-- ===== src/Tests/Clocks.antt =====
-- crates/auction-engine: the deadlines of the small auction.
use dutch_auction.Base.{
  ℕ, ◌+◌, ◌*◌, ◌≡◌, ◌<◌, ◌≤◌, refl, arith, Option, some, lookup, insert, [], ◌∷◌,
}
use dutch_auction.Base.Word.{u64_max}
use dutch_auction.Core.Schedule.{price_at}
use dutch_auction.Core.Schedule.Reach.{IsUsual, IsFirstAt}
use dutch_auction.Core.Ladder.Drain.{IsAscending}
use dutch_auction.Core.State.{new_state}
use dutch_auction.Core.Apply.{apply}
use dutch_auction.Proto.Time.{Nanos}
use dutch_auction.Engine.Clock.{window_close, window_due, trigger_due, floor_due, deadline}
use dutch_auction.Engine.Clock.Deadlines.{
  IsWindowDue, IsTriggerDue, IsDeadline, window_close_after, deadline_earliest,
}
use dutch_auction.Tests.Data.{schedule, open_state, run, after}

window_close_after_example :
    (due k : ℕ) × (window_close 4_666_666 1_000_000 ≡ some due)
    × (due ≡ k * 1_000_000)
    × (4_666_666 < due)
    × (due ≤ 4_666_666 + 1_000_000)
window_close_after_example = window_close_after 4_666_666 1_000_000 (omega arith) (omega arith)

window_first : deadline open_state ≡ some 100
unfolding deadline window_due trigger_due floor_due open_state run after apply new_state lookup
    insert
window_first = refl

abbrev usual : IsUsual schedule
usual = record {
  published = record { ordered = omega arith; descending = omega arith };
  start_fits = omega arith;
  floor_fits = omega arith;
  spread_fits = omega arith;
  long = omega arith;
}

open_usual : IsUsual open_state.config.schedule
unfolding open_state run after apply new_state lookup insert
open_usual = usual

open_ascends : IsAscending open_state.resting.levels
unfolding open_state run after apply new_state lookup insert
open_ascends = (tt, tt)

open_fits : open_state.now + open_state.config.batch_window ≤ u64_max
unfolding open_state run after apply new_state lookup insert
open_fits = omega arith

deadline_earliest_example :
    (closing trigger floor : Option Nanos) × IsWindowDue open_state.window open_state.now
      open_state.config.batch_window closing
    × IsTriggerDue open_state.resting.levels (price_at open_state.config.schedule) trigger
    × IsFirstAt (price_at open_state.config.schedule) open_state.config.schedule.floor_price floor
    × IsDeadline open_state.status open_state.now
        (closing ∷ trigger ∷ floor ∷ [])
        (deadline open_state)
deadline_earliest_example = deadline_earliest open_state open_usual open_ascends open_fits
