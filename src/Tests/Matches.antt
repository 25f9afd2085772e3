-- ===== src/Tests/Matches.antt =====
-- crates/auction-core/src/state.rs: a contested level, a window, and the settlement.
use dutch_auction.Base.{
  zero, ◌≡◌, ◌+◌, ◌⊎◌, inl, inr, refl, arith, List, [], ◌∷◌, length, sum, true,
}
use dutch_auction.Base.Int.{pos}
use dutch_auction.Proto.Money.{is_zero}
use dutch_auction.Core.Bid.{PendingBid}
use dutch_auction.Core.Allocate.{allocate, demand_of}
use dutch_auction.Core.Allocate.Total.{allocate_total, allocate-IsProRata, IsProRata}
use dutch_auction.Core.Matching.{sort_bids, match_window, settle_bids}
use dutch_auction.Core.Matching.Levels.{match_window_total}
use dutch_auction.Core.Matching.Priority.{Awarded, price_priority}
use dutch_auction.Core.Matching.Settle.{Settles, settle_bids-Settles}
use dutch_auction.Core.State.{Out}
use dutch_auction.Core.Clear.{clear}
use dutch_auction.Core.Clear.Uniform.{ClearedAt, clear-ClearedAt}
use dutch_auction.Tests.Data.{bid, open_state}

-- Three bids for eleven units together.
abbrev level : List PendingBid
level = bid 1 4 900 ∷ bid 2 4 900 ∷ bid 3 3 900 ∷ []

-- A higher bid before the level.
abbrev window : List PendingBid
window = bid 4 2 950 ∷ level

abbrev before : Out
before = record { state = open_state; events = [] }

contested : allocate level 7 ≡ 3 ∷ 3 ∷ 1 ∷ []
unfolding allocate
contested = refl

allocate_total_example : (length (allocate level 7) ≡ 3) × (sum (allocate level 7) ≡ 7)
unfolding demand_of
allocate_total_example = allocate_total level 7 (omega arith)

allocate-IsProRata_example : IsProRata 7 (demand_of level) level (allocate level 7)
unfolding demand_of
allocate-IsProRata_example = allocate-IsProRata level 7 (omega arith) (omega arith)

match_window_total_example :
    (length (match_window window 9).allocs ≡ 4)
    × (sum (match_window window 9).allocs + (match_window window 9).supply ≡ 9)
    × ((9 ≡ zero) ⊎ ((match_window window 9).exhausted ≡ is_zero (match_window window 9).supply))
match_window_total_example = match_window_total window 9 (omega arith)

higher_first : Awarded (bid 4 2 950) 2 (sort_bids window) (match_window (sort_bids window) 9).allocs
unfolding sort_bids match_window
higher_first = inl (refl, refl)

lower_last : Awarded (bid 3 3 900) 1 (sort_bids window) (match_window (sort_bids window) 9).allocs
unfolding sort_bids match_window
lower_last = inr (inr (inr (inl (refl, refl))))

price_priority_example : (2 ≡ (bid 4 2 950).qty) ⊎ (1 ≡ zero)
price_priority_example =
    price_priority window 9 (bid 4 2 950) (bid 3 3 900) 2 1 (omega arith) higher_first lower_last
      (omega arith)

settle_bids-Settles_example :
    Settles
      (pos 900)
      7
      before.state
      (settle_bids (pos 900) true level (3 ∷ 3 ∷ 1 ∷ []) before).state
settle_bids-Settles_example = settle_bids-Settles (pos 900) true level (3 ∷ 3 ∷ 1 ∷ []) before refl

clear-ClearedAt_example : ClearedAt (pos 900) open_state (clear (pos 900) before).state
clear-ClearedAt_example = clear-ClearedAt (pos 900) before
