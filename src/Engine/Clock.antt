-- ===== src/Engine/Clock.antt =====
-- crates/auction-engine/src/clock.rs, `window_close`, and crates/auction-engine/src/engine.rs,
-- `deadline`. An `Option<Deadline>` is an optional instant.
pub mod Deadlines
use dutch_auction.Base.{ℕ, List, [], ◌∷◌, Option, none, some, ◌==◌, if◌then◌else◌, max, min}
use dutch_auction.Base.Word.{saturating_add_u64, saturating_mul_u64}
use dutch_auction.Proto.Money.{Price}
use dutch_auction.Proto.Time.{Nanos, window_index}
use dutch_auction.Proto.Status.{accepts_bids}
use dutch_auction.Core.Schedule.{time_to_reach}
use dutch_auction.Core.Config.{floor_price}
use dutch_auction.Core.Ladder.{next_trigger}
use dutch_auction.Core.State.{AuctionState, open_window}

unfoldable pub window_close : Nanos → Nanos → Option Nanos
unfolding window_index saturating_mul_u64 saturating_add_u64
window_close now width =
    if width == 0
    then none
    else some (saturating_mul_u64 (saturating_add_u64 (window_index now width) 1) width)

-- the window's deadline
unfoldable pub window_due : AuctionState → Option Nanos
unfolding open_window window_close
window_due s = elim (open_window s) [
  | none ↦ none
  | some _ ↦ window_close s.now s.config.batch_window
]

-- the next resting bid's
unfoldable pub trigger_due : AuctionState → Option Nanos
unfolding next_trigger time_to_reach
trigger_due s = elim (next_trigger s.resting) [
  | none ↦ none
  | some limit ↦ time_to_reach s.config.schedule limit
]

-- the floor's
unfoldable pub floor_due : AuctionState → Option Nanos
unfolding time_to_reach floor_price
floor_due s = time_to_reach s.config.schedule (floor_price s.config)

-- `flatten`, `map` to an instant that is not past, and `min`
unfoldable pub earliest : Nanos → List (Option Nanos) → Option Nanos
earliest now [] = none
earliest now (none ∷ rest) = earliest now rest
earliest now (some t ∷ rest) = elim (earliest now rest) [
  | none ↦ some (max t now)
  | some u ↦ some (min (max t now) u)
]

unfoldable pub deadline : AuctionState → Option Nanos
unfolding accepts_bids window_due trigger_due floor_due earliest
deadline s =
    if accepts_bids s.status
    then earliest s.now (window_due s ∷ trigger_due s ∷ floor_due s ∷ [])
    else none
