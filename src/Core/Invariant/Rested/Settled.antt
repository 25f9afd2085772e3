-- ===== src/Core/Invariant/Rested/Settled.antt =====
-- crates/auction-core/src/state.rs: settling a window and clearing keep the ladder in order.
use dutch_auction.Base.{ℕ, ◌≡◌, refl, List, [], ◌∷◌, some, none, if_cases, option_cases, ◌||◌, Bool}
use dutch_auction.Proto.Money.{Price, Qty, is_zero}
use dutch_auction.Proto.Status.{RejectReason, Status, accepts_bids}
use dutch_auction.Core.Ladder.{RestingBid, drain_all}
use dutch_auction.Core.Ladder.Order.{IsOrdered, empty-IsOrdered, requeue-IsOrdered}
use dutch_auction.Core.Bid.{PendingBid, OpenWindow}
use dutch_auction.Core.State.{
  AuctionState, Out, push_pending, push_event, set_outcome, reject, give_back,
}
use dutch_auction.Core.Clear.{reprice_fills, turn_away, drain_resting, announce_cleared, clear}
use dutch_auction.Core.Matching.{
  Matched, match_window, sort_bids, requeue_remainder, fill_bid, settle_bid, settle_bids,
  reject_bids, settle_window, flush_window,
}

abbrev pub Ordered : Out → Type 0
Ordered o = IsOrdered o.state.resting

-- What leaves the ladder alone.
turn_away-resting :
    (reason : RejectReason) (bids : List RestingBid) (o : Out)
    → (turn_away reason bids o).state.resting ≡ o.state.resting
unfolding turn_away give_back reject push_event set_outcome
turn_away-resting reason [] o = refl
turn_away-resting reason (b ∷ bids) o =
    turn_away-resting reason bids (give_back b.participant b.limit b.qty b.key reason o)

pub reject_bids-resting :
    (reason : RejectReason) (bids : List PendingBid) (o : Out)
    → (reject_bids reason bids o).state.resting ≡ o.state.resting
unfolding reject_bids give_back reject push_event set_outcome
reject_bids-resting reason [] o = refl
reject_bids-resting reason (b ∷ bids) o =
    reject_bids-resting reason bids (give_back b.participant b.reserve_price b.qty b.key reason o)

pub push_pending-resting :
    (index : ℕ) (price : Price) (b : PendingBid) (s : AuctionState)
    → (push_pending index price b s).resting ≡ s.resting
unfolding push_pending
push_pending-resting index price b s =
    option_cases (λ (r : AuctionState). r.resting ≡ s.resting) s.window _ _ (λ _. refl)
      (λ _ _. refl)

pub drain_resting-Ordered : (reason : RejectReason) (o : Out) → Ordered (drain_resting reason o)
unfolding drain_resting drain_all
drain_resting-Ordered reason o =
    let s = o.state in
    let (bids, ladder) = drain_all s.resting in
    let emptied : Out = record o { state = record s { resting = ladder } } in
    rw (turn_away-resting reason bids emptied) empty-IsOrdered

pub clear-Ordered : (price : Price) (o : Out) → Ordered (clear price o)
unfolding clear announce_cleared push_event
clear-Ordered price o = drain_resting-Ordered RejectReason.unfilled (
    reprice_fills price (record o {
      state = record o.state { status = Status.cleared; clearing_price = some price };
    }))

requeue_remainder-IsOrdered :
    (b : PendingBid) (left : Qty) (ex : Bool) (s : AuctionState)
    → IsOrdered s.resting
    → IsOrdered (requeue_remainder b left ex s).resting
unfolding requeue_remainder
requeue_remainder-IsOrdered b left ex s v =
    option_cases (λ (r : AuctionState). IsOrdered r.resting) b.resting_limit s _ (λ _. v)
      λ limit _.
        if_cases (λ (r : AuctionState). IsOrdered r.resting) (is_zero left || ex) s _ (λ _. v)
          (λ _. requeue-IsOrdered s.resting _ v)

settle_bid-Ordered :
    (price : Price) (ex : Bool) (b : PendingBid) (alloc : ℕ) (o : Out)
    → Ordered o
    → Ordered (settle_bid price ex b alloc o)
unfolding settle_bid fill_bid give_back reject push_event set_outcome
settle_bid-Ordered price ex b alloc o v =
    if_cases Ordered (is_zero alloc) _ _ (λ _. v) (λ _. requeue_remainder-IsOrdered b _ ex _ v)

settle_bids-Ordered :
    (price : Price) (ex : Bool) (bids : List PendingBid) (allocs : List ℕ) (o : Out)
    → Ordered o
    → Ordered (settle_bids price ex bids allocs o)
unfolding settle_bids
settle_bids-Ordered price ex (b ∷ bids) (a ∷ allocs) o v =
    settle_bids-Ordered price ex bids allocs _ (settle_bid-Ordered price ex b a o v)
settle_bids-Ordered price ex [] [] o v = v
settle_bids-Ordered price ex [] (a ∷ allocs) o v = v
settle_bids-Ordered price ex (b ∷ bids) [] o v = v

settle_window-Ordered : (w : OpenWindow) (o : Out) → Ordered o → Ordered (settle_window w o)
unfolding settle_window
settle_window-Ordered w o v =
    let s = o.state in
    let m : Matched = match_window (sort_bids w.bids) s.supply_remaining in
    let taken : Out = record o { state = record s { supply_remaining = m.supply } } in
    let settled : Out = settle_bids w.price m.exhausted (sort_bids w.bids) m.allocs taken in
    if_cases Ordered m.exhausted (clear w.price settled) settled
      (λ _. clear-Ordered w.price settled)
      (λ _. settle_bids-Ordered w.price m.exhausted (sort_bids w.bids) m.allocs taken v)

pub flush_window-Ordered : (o : Out) → Ordered o → Ordered (flush_window o)
unfolding flush_window
flush_window-Ordered o v =
    let taken : Out = record o { state = record o.state { window = none } } in
    option_cases Ordered o.state.window o _ (λ _. v)
      λ w _.
        if_cases Ordered (accepts_bids o.state.status) _ _ (λ _. settle_window-Ordered w taken v)
          (λ _. rw (reject_bids-resting RejectReason.not_live w.bids taken) v)
