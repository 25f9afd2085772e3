-- ===== src/Core/Invariant/Bids.antt =====
-- The handlers of bids, of the opening and of collateral (crates/auction-core/src/state.rs) keep the
-- invariant.
use dutch_auction.Base.{
  ℕ, ◌≤◌, ◌≡◌, refl, ap, arith, List, Option, some, none, inl, inr, false, if_cases, Option-cases,
  ◌==◌, BTreeMap, ltb, lookup,
}
use dutch_auction.Base.Int.{ℤ, ltb_ℤ}
use dutch_auction.Proto.Ids.{ParticipantId, IdempotencyKey, Seq}
use dutch_auction.Proto.Money.{Price, Qty, is_zero, abs_diff}
use dutch_auction.Proto.Time.{Nanos}
use dutch_auction.Proto.Status.{
  Status, pending, live, cleared, cancelled, accepts_bids, is_pending, is_terminal, RejectReason,
}
use dutch_auction.Core.Config.{AuctionConfig, price_at}
use dutch_auction.Core.Command.{BidKind}
use dutch_auction.Core.Event.{Fill, Outcome, Event}
use dutch_auction.Core.Ladder.{PriceLadder, RestingBid, remove}
use dutch_auction.Core.Bid.{PendingBid, Collateral}
use dutch_auction.Core.State.{
  AuctionState, Out, window_bounds, push_pending, push_event, reserve, set_outcome, reject,
}
use dutch_auction.Core.State.Terms.{reject-SameFills}
use dutch_auction.Core.Clear.Uniform.{units}
use dutch_auction.Core.Apply.{
  on_open, on_set_collateral, on_take, on_resting, on_kind, on_bid, cancel_found, on_cancel_resting,
}
use dutch_auction.Core.Invariant.{IsSound, IsSettled, IsSound-SameFills}
use dutch_auction.Core.Invariant.Flush.{flush_window-IsSound}

abbrev pub Sound : Out → Type 0
Sound o = IsSound o.state

-- The maps and the ladder are no part of the invariant.
pub quiet-IsSound :
    (s : AuctionState) (ladder : PriceLadder) (outcomes : BTreeMap Outcome)
    (collateral : BTreeMap Collateral)
    → IsSound s
    → IsSound (record s { resting = ladder; outcomes = outcomes; collateral = collateral })
quiet-IsSound s ladder outcomes collateral v = record {
  small = v.small;
  conserved = v.conserved;
  settled = v.settled;
  windowed = v.windowed;
  supplied = v.supplied;
  untouched = v.untouched;
}

pub reject-IsSound :
    (key : IdempotencyKey) (reason : RejectReason) (o : Out) → Sound o → Sound (reject key reason o)
reject-IsSound key reason o v = IsSound-SameFills (reject-SameFills key reason o) v

-- An auction that has not ended has no clearing price.
pub unpriced :
    (c : AuctionConfig) (now : Nanos) (st : Status) {p : Option Price} (fills : List Fill)
    → is_terminal st ≡ false
    → IsSettled c now st p fills
    → p ≡ none
unfolding is_terminal
unpriced c now pending fills e h = h
unpriced c now live fills e h = h
unpriced c now cleared fills e h = cc
unpriced c now cancelled fills e h = cc

pub on_open-IsSound : (o : Out) → Sound o → Sound (on_open o)
unfolding on_open push_event is_pending
on_open-IsSound o v =
    if_cases Sound (is_pending o.state.status) _ o (λ e. opened (ground arith)) (λ _. v)
  where
    opened : o.state.status ≡ pending → IsSound (record o.state { status = live })
    opened e = record {
      small = v.small;
      conserved = v.conserved;
      settled = rw e at v.settled;
      windowed = v.windowed;
      supplied = λ _ h. omega (arith, v.conserved, ap units (v.untouched e));
      untouched = λ p. cc;
    }

pub on_set_collateral-IsSound :
    (participant : ParticipantId) (limit : ℤ) (o : Out)
    → Sound o
    → Sound (on_set_collateral participant limit o)
unfolding on_set_collateral push_event
on_set_collateral-IsSound participant limit o v = quiet-IsSound o.state _ _ _ v

pub set_outcome-IsSound :
    (key : IdempotencyKey) (out : Outcome) (s : AuctionState)
    → IsSound s
    → IsSound (set_outcome key out s)
unfolding set_outcome
set_outcome-IsSound key out s v = quiet-IsSound s s.resting _ s.collateral v

pub push_event-IsSound : (e : Event) (o : Out) → Sound o → Sound (push_event e o)
unfolding push_event
push_event-IsSound e o v = v

-- A bid that joins a window at an instant that has come.
pub push_pending-IsSound :
    (c : AuctionConfig) (ts : Nanos) (b : PendingBid) (s : AuctionState)
    → s.config ≡ c
    → ts ≤ s.now
    → IsSound s
    → IsSound (push_pending (window_bounds c ts).0 (window_bounds c ts).1 b s)
unfolding push_pending
push_pending-IsSound c ts b s same h v = elim (Option-cases s.window) [
  | inl e ↦
      rw (e, push_pending)
        (record {
          small = v.small;
          conserved = v.conserved;
          settled = v.settled;
          windowed = (ts, h, rw same, rw same);
          supplied = v.supplied;
          untouched = v.untouched;
        })
  | inr (w, e) ↦
      rw (e, push_pending)
        (record {
          small = v.small;
          conserved = v.conserved;
          settled = v.settled;
          windowed = rw e at v.windowed;
          supplied = v.supplied;
          untouched = v.untouched;
        })
]

pub push_pending-terms :
    (index : ℕ) (price : Price) (b : PendingBid) (s : AuctionState)
    → ((push_pending index price b s).config ≡ s.config)
      × ((push_pending index price b s).now ≡ s.now)
unfolding push_pending
push_pending-terms index price b s = ground arith

on_take-IsSound :
    (seq : Seq) (ts : Nanos) (participant : ParticipantId) (key : IdempotencyKey) (qty : Qty)
    (expected : Price) (o : Out)
    → ts ≤ o.state.now
    → Sound o
    → Sound (on_take seq ts participant key qty expected o)
unfolding on_take push_event
on_take-IsSound seq ts participant key qty expected o h v =
    let s = o.state in
    let (covered, collateral) =
      reserve participant (window_bounds s.config ts).1 qty s.collateral in
    let reserved : AuctionState = record s { collateral = collateral } in
    let kept = quiet-IsSound s s.resting s.outcomes collateral v in
    if_cases Sound (ltb s.config.price_tolerance (abs_diff (price_at s.config ts) expected)) _ _
      (λ _. reject-IsSound key _ o v)
      λ _.
        if_cases Sound covered _ _
          (λ _.
            if_cases Sound (s.config.batch_window == 0) _ _
              (λ _. flush_window-IsSound _ (
                set_outcome-IsSound key _ _
                  (push_pending-IsSound s.config ts _ reserved refl h kept)))
              (λ _.
                set_outcome-IsSound key _ _
                  (push_pending-IsSound s.config ts _ reserved refl h kept)))
          (λ _. reject-IsSound key _ (record o { state = reserved }) kept)

on_resting-IsSound :
    (seq : Seq) (ts : Nanos) (participant : ParticipantId) (key : IdempotencyKey) (qty : Qty)
    (limit : Price) (o : Out)
    → Sound o
    → Sound (on_resting seq ts participant key qty limit o)
unfolding on_resting push_event set_outcome
on_resting-IsSound seq ts participant key qty limit o v =
    let s = o.state in
    let (covered, collateral) = reserve participant limit qty s.collateral in
    if_cases Sound (ltb_ℤ (price_at s.config ts) limit) _ _ (λ _. reject-IsSound key _ o v)
      λ _.
        if_cases Sound covered _ _ (λ _. quiet-IsSound s _ _ _ v)
          (λ _.
            reject-IsSound key _ (record o { state = record s { collateral = collateral } })
              (quiet-IsSound s s.resting s.outcomes collateral v))

on_kind-IsSound :
    (kind : BidKind) (seq : Seq) (ts : Nanos) (participant : ParticipantId) (key : IdempotencyKey)
    (qty : Qty) (o : Out)
    → ts ≤ o.state.now
    → Sound o
    → Sound (on_kind kind seq ts participant key qty o)
unfolding on_kind
on_kind-IsSound (BidKind.take p) seq ts participant key qty o h v =
    on_take-IsSound seq ts participant key qty p o h v
on_kind-IsSound (BidKind.resting p) seq ts participant key qty o h v =
    on_resting-IsSound seq ts participant key qty p o v

pub on_bid-IsSound :
    (seq : Seq) (ts : Nanos) (participant : ParticipantId) (key : IdempotencyKey) (qty : Qty)
    (kind : BidKind) (o : Out)
    → ts ≤ o.state.now
    → Sound o
    → Sound (on_bid seq ts participant key qty kind o)
unfolding on_bid
on_bid-IsSound seq ts participant key qty kind o h v =
    elim (Option-cases (lookup key o.state.outcomes)) [
      | inr (out, e) ↦ rw (e, on_bid) (push_event-IsSound (Event.duplicate key out) o v)
      | inl e ↦
          rw (e, on_bid)
            (if_cases Sound (is_zero qty) _ _ (λ _. reject-IsSound key _ o v)
              λ _.
                if_cases Sound (accepts_bids o.state.status) _ _
                  (λ _. on_kind-IsSound kind seq ts participant key qty o h v)
                  (λ _. reject-IsSound key _ o v))
    ]

cancel_found-IsSound :
    (participant : ParticipantId) (key : IdempotencyKey) (found : Option RestingBid) (o : Out)
    → Sound o
    → Sound (cancel_found participant key found o)
unfolding cancel_found set_outcome push_event
cancel_found-IsSound participant key (some bid) o v = quiet-IsSound o.state _ _ _ v
cancel_found-IsSound participant key none o v = elim (Option-cases (lookup key o.state.outcomes)) [
  | inr (out, e) ↦ rw (e, cancel_found) v
  | inl e ↦ rw (e, cancel_found) v
]

pub on_cancel_resting-IsSound :
    (participant : ParticipantId) (key : IdempotencyKey) (o : Out)
    → Sound o
    → Sound (on_cancel_resting participant key o)
unfolding on_cancel_resting
on_cancel_resting-IsSound participant key o v =
    let s = o.state in
    let (found, ladder) = remove s.resting participant key in
    cancel_found-IsSound participant key found (record o { state = record s { resting = ladder } })
      (quiet-IsSound s ladder s.outcomes s.collateral v)
