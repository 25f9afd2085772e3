-- ===== src/Core/Invariant/Rested.antt =====
-- crates/auction-core/src/state.rs: the ladder of every reachable state is in order.
pub mod Settled
use dutch_auction.Base.{
  ℕ, subst, List, [], ◌∷◌, Option, some, none, lookup, if_cases, option_cases, ◌==◌, ◌&&◌, ltb, max,
}
use dutch_auction.Base.Int.{ltb_ℤ}
use dutch_auction.Proto.Ids.{ParticipantId, IdempotencyKey, Seq}
use dutch_auction.Proto.Money.{Price, Qty, is_zero, abs_diff}
use dutch_auction.Proto.Time.{Nanos}
use dutch_auction.Proto.Status.{RejectReason, Status, accepts_bids, is_pending, is_terminal}
use dutch_auction.Core.Schedule.{at_floor}
use dutch_auction.Core.Config.{AuctionConfig, price_at, floor_price}
use dutch_auction.Core.Command.{BidKind, Command}
use dutch_auction.Core.Event.{Outcome, Event}
use dutch_auction.Core.Ladder.{RestingBid, new_ladder, remove, drain_triggered}
use dutch_auction.Core.Ladder.Order.{
  IsOrdered, empty-IsOrdered, insert_bid-IsOrdered, drain_triggered-IsOrdered,
}
use dutch_auction.Core.Ladder.Removal.{remove-IsOrdered}
use dutch_auction.Core.Bid.{PendingBid}
use dutch_auction.Core.State.{
  AuctionState, Out, new_state, window_bounds, push_pending, push_event, reserve, set_outcome,
  reject,
}
use dutch_auction.Core.Matching.{flush_window}
use dutch_auction.Core.Apply.{
  on_open, on_set_collateral, on_take, on_resting, on_kind, on_bid, cancel_found, on_cancel_resting,
  join_window, trigger_resting, close_at_floor, on_tick, reject_window, on_cancel,
  close_elapsed_window, handle, begin,
}
use dutch_auction.Core.Invariant.Handlers.{triggered}
use dutch_auction.Core.Invariant.Reachable.{Reach, apply_inv}
use dutch_auction.Core.Outcomes.Handled.{new_take}
use dutch_auction.Core.Invariant.Rested.Settled.{
  Ordered, push_pending-resting, drain_resting-Ordered, clear-Ordered, flush_window-Ordered,
}

on_take-Ordered :
    (seq : Seq) (ts : Nanos) (participant : ParticipantId) (key : IdempotencyKey) (qty : Qty)
    (expected : Price) (o : Out)
    → Ordered o
    → Ordered (on_take seq ts participant key qty expected o)
unfolding on_take push_event reject set_outcome
on_take-Ordered seq ts participant key qty expected o v =
    let s = o.state in
    let (covered, collateral) =
      reserve participant (window_bounds s.config ts).1 qty s.collateral in
    let reserved : AuctionState = record s { collateral = collateral } in
    let index : ℕ = (window_bounds s.config ts).0 in
    let price : Price = (window_bounds s.config ts).1 in
    let bid : PendingBid = new_take seq participant key qty price in
    let queued : Out = push_event (Event.queued key participant qty price) (record o {
      state = set_outcome key (Outcome.queued qty) (push_pending index price bid reserved);
    }) in
    let joined : Ordered queued = rw (push_pending-resting index price bid reserved) v in
    if_cases Ordered (ltb s.config.price_tolerance (abs_diff (price_at s.config ts) expected)) _ _
      (λ _. v)
      λ _.
        if_cases Ordered covered _ _
          (λ _.
            if_cases Ordered (s.config.batch_window == 0) _ _
              (λ _. flush_window-Ordered queued joined) (λ _. joined))
          (λ _. v)

on_resting-Ordered :
    (seq : Seq) (ts : Nanos) (participant : ParticipantId) (key : IdempotencyKey) (qty : Qty)
    (limit : Price) (o : Out)
    → Ordered o
    → Ordered (on_resting seq ts participant key qty limit o)
unfolding on_resting push_event reject set_outcome
on_resting-Ordered seq ts participant key qty limit o v =
    let s = o.state in
    let (covered, collateral) = reserve participant limit qty s.collateral in
    if_cases Ordered (ltb_ℤ (price_at s.config ts) limit) _ _ (λ _. v)
      λ _. if_cases Ordered covered _ _ (λ _. insert_bid-IsOrdered s.resting _ v) (λ _. v)

on_kind-Ordered :
    (kind : BidKind) (seq : Seq) (ts : Nanos) (participant : ParticipantId) (key : IdempotencyKey)
    (qty : Qty) (o : Out)
    → Ordered o
    → Ordered (on_kind kind seq ts participant key qty o)
unfolding on_kind
on_kind-Ordered (BidKind.take p) seq ts participant key qty o v =
    on_take-Ordered seq ts participant key qty p o v
on_kind-Ordered (BidKind.resting p) seq ts participant key qty o v =
    on_resting-Ordered seq ts participant key qty p o v

on_bid-Ordered :
    (seq : Seq) (ts : Nanos) (participant : ParticipantId) (key : IdempotencyKey) (qty : Qty)
    (kind : BidKind) (o : Out)
    → Ordered o
    → Ordered (on_bid seq ts participant key qty kind o)
unfolding on_bid push_event reject set_outcome
on_bid-Ordered seq ts participant key qty kind o v =
    option_cases Ordered (lookup key o.state.outcomes) _ _
      (λ _.
        if_cases Ordered (is_zero qty) _ _ (λ _. v)
          λ _.
            if_cases Ordered (accepts_bids o.state.status) _ _
              (λ _. on_kind-Ordered kind seq ts participant key qty o v) (λ _. v))
      (λ _ _. v)

cancel_found-Ordered :
    (who : ParticipantId) (key : IdempotencyKey) (found : Option RestingBid) (o : Out)
    → Ordered o
    → Ordered (cancel_found who key found o)
unfolding cancel_found push_event set_outcome
cancel_found-Ordered who key (some bid) o v = v
cancel_found-Ordered who key none o v =
    option_cases Ordered (lookup key o.state.outcomes) _ _ (λ _. v) (λ _ _. v)

on_cancel_resting-Ordered :
    (who : ParticipantId) (key : IdempotencyKey) (o : Out)
    → Ordered o
    → Ordered (on_cancel_resting who key o)
unfolding on_cancel_resting
on_cancel_resting-Ordered who key o v =
    let s = o.state in
    let (found, ladder) = remove s.resting who key in
    cancel_found-Ordered who key found (record o { state = record s { resting = ladder } })
      (remove-IsOrdered s.resting who key v)

join_window-resting :
    (index : ℕ) (price : Price) (bids : List RestingBid) (s : AuctionState)
    → IsOrdered s.resting
    → IsOrdered (join_window index price bids s).resting
unfolding join_window
join_window-resting index price [] s v = v
join_window-resting index price (b ∷ bids) s v =
    join_window-resting index price bids (push_pending index price (triggered b) s)
      (rw (push_pending-resting index price (triggered b) s) v)

trigger_resting-Ordered : (ts : Nanos) (o : Out) → Ordered o → Ordered (trigger_resting ts o)
unfolding trigger_resting
trigger_resting-Ordered ts o v =
    let s = o.state in
    let (bids, ladder) = drain_triggered s.resting (price_at s.config ts) in
    join_window-resting (window_bounds s.config ts).0 (window_bounds s.config ts).1 bids
      (record s { resting = ladder }) (drain_triggered-IsOrdered s.resting (price_at s.config ts) v)

close_at_floor-Ordered : (ts : Nanos) (o : Out) → Ordered o → Ordered (close_at_floor ts o)
unfolding close_at_floor
close_at_floor-Ordered ts o v =
    let f = flush_window-Ordered o v in
    if_cases Ordered (accepts_bids o.state.status && at_floor o.state.config.schedule ts) _ _
      (λ _.
        if_cases Ordered (accepts_bids (flush_window o).state.status) _ _
          (λ _. clear-Ordered (floor_price o.state.config) (flush_window o)) (λ _. f))
      (λ _. v)

on_tick-Ordered : (ts : Nanos) (o : Out) → Ordered o → Ordered (on_tick ts o)
unfolding on_tick
on_tick-Ordered ts o v =
    let joined : Out = trigger_resting ts o in
    let j = trigger_resting-Ordered ts o v in
    if_cases Ordered (accepts_bids o.state.status) _ _
      (λ _.
        if_cases (λ (r : Out). Ordered (close_at_floor ts r)) (o.state.config.batch_window == 0)
          (flush_window joined) joined
          (λ _. close_at_floor-Ordered ts (flush_window joined) (flush_window-Ordered joined j))
          (λ _. close_at_floor-Ordered ts joined j))
      (λ _. v)

on_cancel-Ordered : (o : Out) → Ordered o → Ordered (on_cancel o)
unfolding on_cancel push_event
on_cancel-Ordered o v =
    let stopped : Out = record o { state = record o.state { status = Status.cancelled } } in
    if_cases Ordered (is_terminal o.state.status) _ _ (λ _. v)
      (λ _. drain_resting-Ordered RejectReason.not_live (reject_window stopped))

on_open-Ordered : (o : Out) → Ordered o → Ordered (on_open o)
unfolding on_open push_event
on_open-Ordered o v = if_cases Ordered (is_pending o.state.status) _ o (λ _. v) (λ _. v)

pub close_elapsed_window-Ordered :
    (ts : Nanos) (o : Out) → Ordered o → Ordered (close_elapsed_window ts o)
unfolding close_elapsed_window
close_elapsed_window-Ordered ts o v =
    option_cases Ordered o.state.window o _ (λ _. v)
      (λ w _.
        if_cases Ordered (ltb w.index (window_bounds o.state.config ts).0) (flush_window o) o
          (λ _. flush_window-Ordered o v) (λ _. v))

handle-Ordered :
    (cmd : Command) (seq : Seq) (ts : Nanos) (o : Out) → Ordered o → Ordered (handle cmd seq ts o)
unfolding handle on_set_collateral push_event
handle-Ordered Command.opening seq ts o v = on_open-Ordered o v
handle-Ordered (Command.set_collateral p limit) seq ts o v = v
handle-Ordered (Command.submit_bid p key qty kind) seq ts o v =
    on_bid-Ordered seq ts p key qty kind o v
handle-Ordered (Command.cancel_resting p key) seq ts o v = on_cancel_resting-Ordered p key o v
handle-Ordered Command.tick seq ts o v = on_tick-Ordered ts o v
handle-Ordered Command.cancel seq ts o v = on_cancel-Ordered o v

-- In every state that commands bring a new auction to, the limits on the ladder ascend, each bid is
-- on the level of its own limit, no level is empty, and the ladder reports no more units than rest
-- on it.
pub resting-IsOrdered :
    {config : AuctionConfig} {s : AuctionState} → Reach config s → IsOrdered s.resting
unfolding new_state new_ladder begin
resting-IsOrdered Reach.created = empty-IsOrdered
resting-IsOrdered (Reach.applied {s} seq ts cmd r e) = subst Ordered (apply_inv s seq ts cmd e).1 (
    handle-Ordered cmd seq (max ts s.now) _
      (close_elapsed_window-Ordered (max ts s.now) (begin seq ts s) (resting-IsOrdered r)))
