-- ===== src/Tests/Data.antt =====
-- A small auction that sells out: ten units, a step of ten down every microsecond, windows of 100 ns.
use dutch_auction.Base.{ℕ, suc, none, some, List, [], ◌∷◌}
use dutch_auction.Base.Int.{pos}
use dutch_auction.Core.Schedule.{PriceSchedule, stepped}
use dutch_auction.Core.Config.{AuctionConfig}
use dutch_auction.Core.Command.{Command, BidKind}
use dutch_auction.Core.Bid.{PendingBid}
use dutch_auction.Core.State.{AuctionState, Out, new_state}
use dutch_auction.Core.Apply.{apply}

abbrev pub schedule : PriceSchedule
schedule = record { start_price = pos 1_000; floor_price = pos 100; kind = stepped 1_000 (pos 10) }

abbrev pub config : AuctionConfig
config = record {
  auction_id = 1;
  total_supply = 10;
  schedule = schedule;
  batch_window = 100;
  price_tolerance = 10;
}

-- What `apply` returns, or the state itself where it panics.
unfoldable pub after : AuctionState → ℕ → ℕ → Command → Out
unfolding apply
after s seq ts cmd = elim (apply s seq ts cmd) [
  | none ↦ record { state = s; events = [] }
  | some o ↦ o
]

unfoldable pub run : ℕ → List (ℕ × Command) → AuctionState → AuctionState
unfolding after
run seq [] s = s
run seq ((ts, cmd) ∷ rest) s = run (suc seq) rest (after s seq ts cmd).state

-- Two bidders with money, and a bid of each for eight of the ten units.
abbrev pub bidding : List (ℕ × Command)
bidding =
    (0, Command.opening)
    ∷ (0, Command.set_collateral 7 (pos 20_000))
    ∷ (1, Command.set_collateral 8 (pos 20_000))
    ∷ (5, Command.submit_bid 7 1 8 (BidKind.take (pos 1_000)))
    ∷ (6, Command.submit_bid 8 2 8 (BidKind.take (pos 1_000)))
    ∷ (6, Command.submit_bid 8 3 2 (BidKind.resting (pos 500)))
    ∷ []

-- The state with the two bids in the window.
unfoldable pub open_state : AuctionState
unfolding run new_state
open_state = run 0 bidding (new_state config)

-- The state after the tick that closes the window.
unfoldable pub sold_state : AuctionState
unfolding open_state after
sold_state = (after open_state 6 120 Command.tick).state

abbrev pub bid : ℕ → ℕ → ℕ → PendingBid
bid seq qty priority = record {
  seq = seq;
  participant = seq;
  key = seq;
  qty = qty;
  priority = pos priority;
  reserve_price = pos priority;
  resting_limit = none;
}
