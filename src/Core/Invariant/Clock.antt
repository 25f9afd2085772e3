-- ===== src/Core/Invariant/Clock.antt =====
-- crates/auction-core/src/state.rs: no handler touches the terms, the clock or the last sequence number.
use dutch_auction.Base.{
  ℕ, ◌≡◌, ◌≤◌, refl, ◌∙◌, arith, Option, some, none, if_cases, option_cases, lookup, List, [], ◌∷◌,
  ◌==◌, ltb, ◌&&◌,
}
use dutch_auction.Base.Int.{ltb_ℤ}
use dutch_auction.Proto.Ids.{ParticipantId, IdempotencyKey, Seq}
use dutch_auction.Proto.Money.{Price, Qty, is_zero, abs_diff}
use dutch_auction.Proto.Time.{Nanos}
use dutch_auction.Proto.Status.{RejectReason, accepts_bids, is_pending, is_terminal, Status}
use dutch_auction.Core.Schedule.{at_floor}
use dutch_auction.Core.Config.{price_at, floor_price}
use dutch_auction.Core.Command.{BidKind, Command}
use dutch_auction.Core.Ladder.{RestingBid, remove, drain_triggered}
use dutch_auction.Core.Bid.{PendingBid}
use dutch_auction.Core.State.{
  AuctionState, Out, window_bounds, push_pending, push_event, reserve, set_outcome, reject,
}
use dutch_auction.Core.State.Terms.{SameFills, reject-SameFills}
use dutch_auction.Core.Clear.{clear}
use dutch_auction.Core.Clear.Uniform.{clear-ClearedAt, drain_resting-SameFills}
use dutch_auction.Core.Matching.{flush_window}
use dutch_auction.Core.Matching.Settle.{reject_bids-SameFills}
use dutch_auction.Core.Apply.{
  on_open, on_set_collateral, on_take, on_resting, on_kind, on_bid, cancel_found, on_cancel_resting,
  join_window, trigger_resting, close_at_floor, on_tick, reject_window, on_cancel, handle,
}
use dutch_auction.Core.Invariant.Flush.{
  SameClock, SameClock-refl, SameClock-trans, flush_window-SameClock, flush_window-IsSound,
}
use dutch_auction.Core.Invariant.Bids.{
  Sound, quiet-IsSound, set_outcome-IsSound, push_pending-IsSound,
}
use dutch_auction.Core.Invariant.Handlers.{triggered, trigger_resting-IsSound}

SameFills-SameClock : {s t : AuctionState} → SameFills s t → SameClock s t
SameFills-SameClock f = record { config = f.config; now = f.now; last_seq = f.last_seq }

untouched :
    {s t : AuctionState}
    → t.config ≡ s.config
    → t.now ≡ s.now
    → t.last_seq ≡ s.last_seq
    → SameClock s t
untouched c n l = record { config = c; now = n; last_seq = l }

reject-SameClock :
    (key : IdempotencyKey) (reason : RejectReason) (o : Out)
    → SameClock o.state (reject key reason o).state
reject-SameClock key reason o = SameFills-SameClock (reject-SameFills key reason o)

clear-SameClock : (p : Price) (o : Out) → SameClock o.state (clear p o).state
clear-SameClock p o = let c = clear-ClearedAt p o in untouched c.config c.now c.last_seq

pub push_pending-SameClock :
    (index : ℕ) (price : Price) (b : PendingBid) (s : AuctionState)
    → SameClock s (push_pending index price b s)
unfolding push_pending
push_pending-SameClock index price b s = ground arith

join_window-SameClock :
    (index : ℕ) (price : Price) (bids : List RestingBid) (s : AuctionState)
    → SameClock s (join_window index price bids s)
unfolding join_window
join_window-SameClock index price [] s = SameClock-refl s
join_window-SameClock index price (b ∷ bids) s =
    SameClock-trans (push_pending-SameClock index price (triggered b) s)
      (join_window-SameClock index price bids (push_pending index price (triggered b) s))

on_open-SameClock : (o : Out) → SameClock o.state (on_open o).state
unfolding on_open push_event
on_open-SameClock o =
    if_cases (λ (r : Out). SameClock o.state r.state) (is_pending o.state.status) _ o
      (λ _. untouched refl refl refl) (λ _. SameClock-refl o.state)

on_take-SameClock :
    (seq : Seq) (ts : Nanos) (participant : ParticipantId) (key : IdempotencyKey) (qty : Qty)
    (expected : Price) (o : Out)
    → ts ≤ o.state.now
    → Sound o
    → SameClock o.state (on_take seq ts participant key qty expected o).state
unfolding on_take push_event set_outcome
on_take-SameClock seq ts participant key qty expected o h v =
    let s = o.state in
    let (covered, collateral) =
      reserve participant (window_bounds s.config ts).1 qty s.collateral in
    let reserved : AuctionState = record s { collateral = collateral } in
    let same =
      push_pending-SameClock (window_bounds s.config ts).0 (window_bounds s.config ts).1 _
        reserved in
    let P : Out → Type 0 = λ r. SameClock s r.state in
    if_cases P (ltb s.config.price_tolerance (abs_diff (price_at s.config ts) expected)) _ _
      (λ _. reject-SameClock key _ o)
      λ _.
        if_cases P covered _ _
          (λ _.
            if_cases P (s.config.batch_window == 0) _ _
              (λ _.
                let f = flush_window-SameClock _ (
                  set_outcome-IsSound key _ _ (
                    push_pending-IsSound s.config ts _ reserved refl h
                      (quiet-IsSound s s.resting s.outcomes collateral v))) in
                untouched (f.config ∙ same.config) (f.now ∙ same.now) (f.last_seq ∙ same.last_seq))
              (λ _. untouched same.config same.now same.last_seq))
          (λ _.
            let r =
              reject-SameClock key RejectReason.insufficient_collateral
                (record o { state = reserved }) in
            untouched r.config r.now r.last_seq)

on_resting-SameClock :
    (seq : Seq) (ts : Nanos) (participant : ParticipantId) (key : IdempotencyKey) (qty : Qty)
    (limit : Price) (o : Out)
    → SameClock o.state (on_resting seq ts participant key qty limit o).state
unfolding on_resting push_event set_outcome
on_resting-SameClock seq ts participant key qty limit o =
    let s = o.state in
    let (covered, collateral) = reserve participant limit qty s.collateral in
    let P : Out → Type 0 = λ r. SameClock s r.state in
    if_cases P (ltb_ℤ (price_at s.config ts) limit) _ _ (λ _. reject-SameClock key _ o)
      λ _.
        if_cases P covered _ _ (λ _. untouched refl refl refl)
          (λ _.
            let r =
              reject-SameClock key RejectReason.insufficient_collateral
                (record o { state = record s { collateral = collateral } }) in
            untouched r.config r.now r.last_seq)

on_kind-SameClock :
    (kind : BidKind) (seq : Seq) (ts : Nanos) (participant : ParticipantId) (key : IdempotencyKey)
    (qty : Qty) (o : Out)
    → ts ≤ o.state.now
    → Sound o
    → SameClock o.state (on_kind kind seq ts participant key qty o).state
unfolding on_kind
on_kind-SameClock (BidKind.take p) seq ts participant key qty o h v =
    on_take-SameClock seq ts participant key qty p o h v
on_kind-SameClock (BidKind.resting p) seq ts participant key qty o h v =
    on_resting-SameClock seq ts participant key qty p o

on_bid-SameClock :
    (seq : Seq) (ts : Nanos) (participant : ParticipantId) (key : IdempotencyKey) (qty : Qty)
    (kind : BidKind) (o : Out)
    → ts ≤ o.state.now
    → Sound o
    → SameClock o.state (on_bid seq ts participant key qty kind o).state
unfolding on_bid push_event
on_bid-SameClock seq ts participant key qty kind o h v =
    let P : Out → Type 0 = λ r. SameClock o.state r.state in
    option_cases P (lookup key o.state.outcomes) _ _
      (λ _.
        if_cases P (is_zero qty) _ _ (λ _. reject-SameClock key _ o)
          λ _.
            if_cases P (accepts_bids o.state.status) _ _
              (λ _. on_kind-SameClock kind seq ts participant key qty o h v)
              (λ _. reject-SameClock key _ o))
      (λ out _. SameClock-refl o.state)

cancel_found-SameClock :
    (participant : ParticipantId) (key : IdempotencyKey) (found : Option RestingBid) (o : Out)
    → SameClock o.state (cancel_found participant key found o).state
unfolding cancel_found set_outcome push_event
cancel_found-SameClock participant key (some bid) o = untouched refl refl refl
cancel_found-SameClock participant key none o =
    option_cases (λ (r : Out). SameClock o.state r.state) (lookup key o.state.outcomes) _ _
      (λ _. SameClock-refl o.state) (λ _ _. SameClock-refl o.state)

on_cancel_resting-SameClock :
    (participant : ParticipantId) (key : IdempotencyKey) (o : Out)
    → SameClock o.state (on_cancel_resting participant key o).state
unfolding on_cancel_resting
on_cancel_resting-SameClock participant key o =
    let s = o.state in
    let (found, ladder) = remove s.resting participant key in
    let c =
      cancel_found-SameClock participant key found
        (record o { state = record s { resting = ladder } }) in
    untouched c.config c.now c.last_seq

pub trigger_resting-SameClock :
    (ts : Nanos) (o : Out) → SameClock o.state (trigger_resting ts o).state
unfolding trigger_resting
trigger_resting-SameClock ts o =
    let s = o.state in
    let (bids, ladder) = drain_triggered s.resting (price_at s.config ts) in
    let j =
      join_window-SameClock (window_bounds s.config ts).0 (window_bounds s.config ts).1 bids
        (record s { resting = ladder }) in
    untouched j.config j.now j.last_seq

close_at_floor-SameClock :
    (ts : Nanos) (o : Out) → Sound o → SameClock o.state (close_at_floor ts o).state
unfolding close_at_floor
close_at_floor-SameClock ts o v =
    let P : Out → Type 0 = λ r. SameClock o.state r.state in
    let f = flush_window-SameClock o v in
    if_cases P (accepts_bids o.state.status && at_floor o.state.config.schedule ts) _ _
      (λ e.
        if_cases P (accepts_bids (flush_window o).state.status) _ _
          (λ _. SameClock-trans f (clear-SameClock (floor_price o.state.config) (flush_window o)))
          (λ _. f))
      (λ _. SameClock-refl o.state)

on_tick-SameClock :
    (ts : Nanos) (o : Out) → ts ≤ o.state.now → Sound o → SameClock o.state (on_tick ts o).state
unfolding on_tick
on_tick-SameClock ts o h v =
    let P : Out → Type 0 = λ r. SameClock o.state r.state in
    let joined : Out = trigger_resting ts o in
    let j = trigger_resting-SameClock ts o in
    let sound = trigger_resting-IsSound ts o h v in
    if_cases P (accepts_bids o.state.status) _ _
      (λ _.
        if_cases (λ (r : Out). P (close_at_floor ts r)) (o.state.config.batch_window == 0)
          (flush_window joined) joined
          (λ _. SameClock-trans j (
            SameClock-trans (flush_window-SameClock joined sound) (
              close_at_floor-SameClock ts (flush_window joined)
                (flush_window-IsSound joined sound))))
          (λ _. SameClock-trans j (close_at_floor-SameClock ts joined sound)))
      (λ _. SameClock-refl o.state)

reject_window-SameClock : (o : Out) → SameClock o.state (reject_window o).state
unfolding reject_window
reject_window-SameClock o =
    option_cases (λ (r : Out). SameClock o.state r.state) o.state.window _ _
      (λ _. SameClock-refl o.state)
      (λ w _.
        let r = reject_bids-SameFills RejectReason.not_live w.bids _ in
        untouched r.config r.now r.last_seq)

on_cancel-SameClock : (o : Out) → SameClock o.state (on_cancel o).state
unfolding on_cancel push_event
on_cancel-SameClock o =
    let o1 : Out = record o { state = record o.state { status = Status.cancelled } } in
    let w = reject_window-SameClock o1 in
    let d = drain_resting-SameFills RejectReason.not_live (reject_window o1) in
    if_cases (λ (r : Out). SameClock o.state r.state) (is_terminal o.state.status) _ _
      (λ _. SameClock-refl o.state)
      (λ _. untouched (d.config ∙ w.config) (d.now ∙ w.now) (d.last_seq ∙ w.last_seq))

pub handle-SameClock :
    (cmd : Command) (seq : Seq) (ts : Nanos) (o : Out)
    → ts ≤ o.state.now
    → Sound o
    → SameClock o.state (handle cmd seq ts o).state
unfolding handle on_set_collateral push_event
handle-SameClock Command.opening seq ts o h v = on_open-SameClock o
handle-SameClock (Command.set_collateral p limit) seq ts o h v = untouched refl refl refl
handle-SameClock (Command.submit_bid p key qty kind) seq ts o h v =
    on_bid-SameClock seq ts p key qty kind o h v
handle-SameClock (Command.cancel_resting p key) seq ts o h v = on_cancel_resting-SameClock p key o
handle-SameClock Command.tick seq ts o h v = on_tick-SameClock ts o h v
handle-SameClock Command.cancel seq ts o h v = on_cancel-SameClock o
