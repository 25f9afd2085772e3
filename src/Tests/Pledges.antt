-- ===== src/Tests/Pledges.antt =====
-- crates/auction-core/src/state.rs: what two bidders have committed once the auction is sold, and what
-- a negative limit does.
use dutch_auction.Base.{ℕ, ◌≤◌, ◌≡◌, refl, arith, false, some, All, List, [], ◌∷◌, lookup, insert}
use dutch_auction.Base.Int.{pos, negsuc, ◌≤ℤ◌}
use dutch_auction.Core.Command.{Command, BidKind}
use dutch_auction.Core.State.{AuctionState, Out, new_state, collateral_of, window_bounds}
use dutch_auction.Core.Config.{floor_price}
use dutch_auction.Core.Matching.{flush_window}
use dutch_auction.Core.Apply.{apply}
use dutch_auction.Core.Backing.{owes, owed, fills_owed}
use dutch_auction.Core.Backing.Prices.{IsFair}
use dutch_auction.Core.Backing.Handled.{IsFairCommand}
use dutch_auction.Core.Backing.Reachable.{FairReach, collateral_backed}
use dutch_auction.Core.Backing.Charged.{IsCovered, never_overcharged}
use dutch_auction.Proto.Status.{is_terminal}
use dutch_auction.Core.Event.{Fill}
use dutch_auction.Tests.Data.{config, after, run, open_state, sold_state}
use dutch_auction.Tests.Auctions.{sale_applied}

config-IsFair : IsFair config
unfolding floor_price
config-IsFair = record {
  published = record { ordered = omega arith; descending = omega arith };
  signless = refl;
}

-- One more command.
step :
    {s : AuctionState} {o : Out} (seq ts : ℕ) (cmd : Command)
    → FairReach config 7 20_000 s
    → IsFairCommand 7 20_000 cmd
    → ts ≤ 1_000
    → apply s seq ts cmd ≡ some o
    → FairReach config 7 20_000 o.state
step seq ts cmd r fair small e = FairReach.applied seq ts cmd r fair (omega arith) e

FairReach-open : FairReach config 7 20_000 open_state
unfolding open_state run after apply new_state lookup insert
FairReach-open =
    let s0 : AuctionState = new_state config in
    let s1 : AuctionState = (after s0 0 0 Command.opening).state in
    let s2 : AuctionState = (after s1 1 0 (Command.set_collateral 7 (pos 20_000))).state in
    let s3 : AuctionState = (after s2 2 1 (Command.set_collateral 8 (pos 20_000))).state in
    let take1 : Command = Command.submit_bid 7 1 8 (BidKind.take (pos 1_000)) in
    let take2 : Command = Command.submit_bid 8 2 8 (BidKind.take (pos 1_000)) in
    let rest : Command = Command.submit_bid 8 3 2 (BidKind.resting (pos 500)) in
    let s4 : AuctionState = (after s3 3 5 take1).state in
    let s5 : AuctionState = (after s4 4 6 take2).state in
    step {o = after s5 5 6 rest} 5 6 rest
      (step {o = after s4 4 6 take2} 4 6 take2
        (step {o = after s3 3 5 take1} 3 5 take1
          (step {o = after s2 2 1 (Command.set_collateral 8 (pos 20_000))} 2 1
            (Command.set_collateral 8 (pos 20_000))
            (step {o = after s1 1 0 (Command.set_collateral 7 (pos 20_000))} 1 0
              (Command.set_collateral 7 (pos 20_000))
              (step {o = after s0 0 0 Command.opening} 0 0 Command.opening FairReach.created tt
                (omega arith) refl)
              (λ _. omega arith) (omega arith) refl)
            (λ _. omega arith) (omega arith) refl)
          tt (omega arith) refl)
        tt (omega arith) refl)
      refl (omega arith) refl

FairReach-sold : FairReach config 7 20_000 sold_state
unfolding sold_state
FairReach-sold =
    step {o = after open_state 6 120 Command.tick} 6 120 Command.tick FairReach-open tt
      (omega arith) sale_applied

-- The five units that are sold to the first bidder are all that it owes.
sold_owed : owed 7 sold_state ≡ 5_000
unfolding owes sold_state open_state run after apply new_state lookup insert flush_window
sold_owed = refl

collateral_backed_example :
    ((collateral_of sold_state 7).committed ≡ pos (owed 7 sold_state))
    × (owed 7 sold_state ≤ 20_000)
collateral_backed_example =
    collateral_backed 7 20_000 (omega arith) (omega arith) config-IsFair FairReach-sold

open_goes_on : is_terminal open_state.status ≡ false
unfolding is_terminal open_state run after apply new_state lookup insert
open_goes_on = refl

never_overcharged_example :
    IsCovered open_state.window
    × All
        (λ (f : Fill). (window_bounds open_state.config open_state.now).1 ≤ℤ f.price)
        open_state.fills
never_overcharged_example =
    never_overcharged 7 20_000 (omega arith) (omega arith) config-IsFair FairReach-open open_goes_on

-- A bidder that has posted 4,000 rests a bid at minus 1,000, and is then sold units for 8,000.
abbrev overdrawing : List (ℕ × Command)
overdrawing =
    (0, Command.opening)
    ∷ (0, Command.set_collateral 7 (pos 4_000))
    ∷ (1, Command.submit_bid 7 1 8 (BidKind.resting (negsuc 999)))
    ∷ (2, Command.submit_bid 7 2 8 (BidKind.take (pos 1_000)))
    ∷ (120, Command.tick)
    ∷ []

overdrawn : fills_owed 7 (run 0 overdrawing (new_state config)).fills ≡ 8_000
unfolding owes run after apply new_state lookup insert flush_window
overdrawn = refl
