-- ===== src/Tests/Flights.antt =====
-- crates/auction-core/src/state.rs: a bid that rests, and one that is turned away at the end.
use dutch_auction.Base.{◌≡◌, refl, ◌⊎◌, false, true, some, lookup, insert}
use dutch_auction.Base.Int.{pos}
use dutch_auction.Proto.Status.{is_terminal}
use dutch_auction.Core.Command.{Command, BidKind}
use dutch_auction.Core.Event.{Outcome}
use dutch_auction.Core.State.{AuctionState, Out, new_state, outcome}
use dutch_auction.Core.Apply.{apply}
use dutch_auction.Core.Outcomes.Retries.{Later}
use dutch_auction.Core.Outcomes.InFlight.{IsFinal, InWindow, OnLadder}
use dutch_auction.Core.Outcomes.InFlight.Reachable.{in_flight, ended_answered}
use dutch_auction.Core.Ladder.Order.{IsOrdered}
use dutch_auction.Core.Invariant.Rested.{resting-IsOrdered}
use dutch_auction.Tests.Data.{config, after, run, open_state}
use dutch_auction.Tests.Auctions.{Reach-open}
use dutch_auction.Tests.Retries.{funded, placed, placed_applied}
use dutch_auction.Core.Invariant.Reachable.{Reach}

Reach-funded : Reach config funded
unfolding funded run after apply new_state lookup insert
Reach-funded =
    let s0 : AuctionState = new_state config in
    let s1 : AuctionState = (after s0 0 0 Command.opening).state in
    Reach.applied {o = after s1 1 0 (Command.set_collateral 7 (pos 20_000))} 1 0
      (Command.set_collateral 7 (pos 20_000))
      (Reach.applied {o = after s0 0 0 Command.opening} 0 0 Command.opening Reach.created refl) refl

-- The auction is cancelled with the bid in its window.
unfoldable stopped : Out
unfolding placed after
stopped = after placed.state 3 8 Command.cancel

stopped_applied : apply placed.state 3 8 Command.cancel ≡ some stopped
unfolding stopped placed funded run after apply new_state lookup insert
stopped_applied = refl

stopped_ended : is_terminal stopped.state.status ≡ true
unfolding stopped placed funded run after apply new_state lookup insert is_terminal
stopped_ended = refl

rests_on_record : outcome open_state 3 ≡ some (Outcome.resting 2)
unfolding outcome open_state run after apply new_state lookup insert
rests_on_record = refl

in_flight_example :
    (is_terminal open_state.status ≡ false)
    × (InWindow 3 open_state.window ⊎ OnLadder 3 open_state.resting.levels)
in_flight_example = in_flight 3 (Outcome.resting 2) Reach-open rests_on_record (λ h. h)

ended_answered_example : (out : Outcome) × (outcome stopped.state 1 ≡ some out) × IsFinal (some out)
ended_answered_example =
    ended_answered 2 5 7 1 8 (BidKind.take (pos 1_000)) Reach-funded placed_applied
      (Later.applied 3 8 Command.cancel Later.unchanged stopped_applied) stopped_ended

resting-IsOrdered_example : IsOrdered open_state.resting
resting-IsOrdered_example = resting-IsOrdered Reach-open
