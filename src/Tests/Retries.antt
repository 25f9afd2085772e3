-- ===== src/Tests/Retries.antt =====
-- crates/auction-core/src/state.rs: a key that is used twice.
use dutch_auction.Base.{◌≡◌, refl, some, [], ◌∷◌, lookup, insert, max}
use dutch_auction.Base.Int.{pos}
use dutch_auction.Core.Command.{Command, BidKind}
use dutch_auction.Core.Event.{Outcome, Event}
use dutch_auction.Core.State.{AuctionState, Out, new_state, outcome, push_event}
use dutch_auction.Core.Apply.{apply, begin, close_elapsed_window}
use dutch_auction.Core.Matching.{flush_window}
use dutch_auction.Core.Outcomes.Retries.{Later, submission_answered, retry_harmless}
use dutch_auction.Tests.Data.{config, after, run}

abbrev pub bid : Command
bid = Command.submit_bid 7 1 8 (BidKind.take (pos 1_000))

-- The same key again, by another participant.
abbrev again : Command
again = Command.submit_bid 8 1 3 (BidKind.resting (pos 500))

-- Open, with money for the bidder; with the bid; and after a tick.
unfoldable pub funded : AuctionState
unfolding run new_state
funded =
    run 0 ((0, Command.opening) ∷ (0, Command.set_collateral 7 (pos 20_000)) ∷ [])
      (new_state config)

unfoldable pub placed : Out
unfolding funded after
placed = after funded 2 5 bid

unfoldable ticked : Out
unfolding placed after
ticked = after placed.state 3 6 Command.tick

unfoldable retried : Out
unfolding ticked after
retried = after ticked.state 4 120 again

pub placed_applied : apply funded 2 5 bid ≡ some placed
unfolding placed funded run after apply new_state lookup insert
placed_applied = refl

ticked_applied : apply placed.state 3 6 Command.tick ≡ some ticked
unfolding ticked placed funded run after apply new_state lookup insert
ticked_applied = refl

retried_applied : apply ticked.state 4 120 again ≡ some retried
unfolding retried ticked placed funded run after apply new_state lookup insert flush_window
retried_applied = refl

submission_answered_example : (out : Outcome) × (outcome placed.state 1 ≡ some out)
submission_answered_example =
    submission_answered funded 2 5 7 1 8 (BidKind.take (pos 1_000)) placed_applied

retry_harmless_example :
    (out : Outcome) × (outcome
        (close_elapsed_window (max 120 ticked.state.now) (begin 4 120 ticked.state)).state
        1
      ≡ some out)
    × (retried
        ≡ push_event
            (Event.duplicate 1 out)
            (close_elapsed_window (max 120 ticked.state.now) (begin 4 120 ticked.state)))
retry_harmless_example =
    retry_harmless funded ticked.state 2 4 5 120 7 8 1 8 3 (BidKind.take (pos 1_000))
      (BidKind.resting (pos 500)) placed_applied
      (Later.applied 3 6 Command.tick Later.unchanged ticked_applied) retried_applied
