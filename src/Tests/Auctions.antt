-- ===== src/Tests/Auctions.antt =====
-- crates/auction-core/src/state.rs: a whole auction, from its creation to the sale.
use dutch_auction.Base.{
  ◌+◌, ◌≡◌, ◌<◌, ◌≤◌, refl, arith, All, ◌⊎◌, none, some, max, map, [], ◌∷◌, lookup, insert,
}
use dutch_auction.Base.Int.{pos, ◌≤ℤ◌}
use dutch_auction.Base.Word.{u64_max}
use dutch_auction.Proto.Ids.{Seq}
use dutch_auction.Proto.Money.{Price}
use dutch_auction.Proto.Status.{live, cleared}
use dutch_auction.Core.Config.{floor_price, start_price}
use dutch_auction.Core.Command.{Command, BidKind}
use dutch_auction.Core.Event.{Fill}
use dutch_auction.Core.Schedule.Bounds.{IsPublished}
use dutch_auction.Core.State.{AuctionState, new_state, total_filled}
use dutch_auction.Core.Apply.{apply}
use dutch_auction.Core.Matching.{flush_window}
use dutch_auction.Core.Clear.Uniform.{IsAt}
use dutch_auction.Core.Invariant.{IsClockPrice}
use dutch_auction.Core.Invariant.Reachable.{Reach}
use dutch_auction.Core.Invariant.Promises.{
  conservation, uniform_price, fill_price_bounds, live_supply, apply_order,
}
use dutch_auction.Tests.Data.{schedule, config, after, run, open_state, sold_state}

abbrev small : config.total_supply ≤ u64_max
small = omega arith

pub Reach-open : Reach config open_state
unfolding open_state run after apply new_state lookup insert
Reach-open =
    let s0 : AuctionState = new_state config in
    let s1 : AuctionState = (after s0 0 0 Command.opening).state in
    let s2 : AuctionState = (after s1 1 0 (Command.set_collateral 7 (pos 20_000))).state in
    let s3 : AuctionState = (after s2 2 1 (Command.set_collateral 8 (pos 20_000))).state in
    let s4 : AuctionState =
      (after s3 3 5 (Command.submit_bid 7 1 8 (BidKind.take (pos 1_000)))).state in
    let s5 : AuctionState =
      (after s4 4 6 (Command.submit_bid 8 2 8 (BidKind.take (pos 1_000)))).state in
    Reach.applied {o = after s5 5 6 (Command.submit_bid 8 3 2 (BidKind.resting (pos 500)))} 5 6
      (Command.submit_bid 8 3 2 (BidKind.resting (pos 500)))
      (Reach.applied {o = after s4 4 6 (Command.submit_bid 8 2 8 (BidKind.take (pos 1_000)))} 4 6
        (Command.submit_bid 8 2 8 (BidKind.take (pos 1_000)))
        (Reach.applied {o = after s3 3 5 (Command.submit_bid 7 1 8 (BidKind.take (pos 1_000)))} 3 5
          (Command.submit_bid 7 1 8 (BidKind.take (pos 1_000)))
          (Reach.applied {o = after s2 2 1 (Command.set_collateral 8 (pos 20_000))} 2 1
            (Command.set_collateral 8 (pos 20_000))
            (Reach.applied {o = after s1 1 0 (Command.set_collateral 7 (pos 20_000))} 1 0
              (Command.set_collateral 7 (pos 20_000))
              (Reach.applied {o = after s0 0 0 Command.opening} 0 0 Command.opening Reach.created
                refl)
              refl)
            refl)
          refl)
        refl)
      refl

pub sale_applied : apply open_state 6 120 Command.tick ≡ some (after open_state 6 120 Command.tick)
unfolding open_state run after apply new_state lookup insert
sale_applied = refl

Reach-sold : Reach config sold_state
unfolding sold_state
Reach-sold =
    Reach.applied {o = after open_state 6 120 Command.tick} 6 120 Command.tick Reach-open
      sale_applied

sold_cleared : sold_state.status ≡ cleared
unfolding sold_state open_state run after apply new_state lookup insert flush_window
sold_cleared = refl

open_live : open_state.status ≡ live
unfolding sold_state open_state run after apply new_state lookup insert flush_window
open_live = refl

-- The contested level gives each of the two equal bids half.
sold_shares : map (λ (f : Fill). f.qty) sold_state.fills ≡ 5 ∷ 5 ∷ []
unfolding sold_state open_state run after apply new_state lookup insert flush_window
sold_shares = refl

conservation_example : total_filled sold_state + sold_state.supply_remaining ≡ 10
conservation_example = conservation small Reach-sold

uniform_price_example :
    (p : Price) × (sold_state.clearing_price ≡ some p)
    × All (IsAt p) sold_state.fills
    × IsClockPrice config sold_state.now p
uniform_price_example = uniform_price small Reach-sold sold_cleared

abbrev published : IsPublished schedule
published = record { ordered = omega arith; descending = omega arith }

fill_price_bounds_example :
    All
      (λ (f : Fill). (floor_price config ≤ℤ f.price) × (f.price ≤ℤ start_price config))
      sold_state.fills
fill_price_bounds_example =
    fill_price_bounds {config = config} {s = sold_state} small published Reach-sold sold_cleared

live_supply_example : 0 < open_state.supply_remaining
live_supply_example = live_supply small (omega arith) Reach-open open_live

apply_order_example :
    ((open_state.last_seq ≡ none)
      ⊎ ((last : Seq) × (open_state.last_seq ≡ some last) × (6 ≡ last + 1)))
    × ((after open_state 6 120 Command.tick).state.last_seq ≡ some 6)
    × ((after open_state 6 120 Command.tick).state.now ≡ max 120 open_state.now)
    × ((after open_state 6 120 Command.tick).state.config ≡ config)
apply_order_example = apply_order 6 120 Command.tick small Reach-open sale_applied
