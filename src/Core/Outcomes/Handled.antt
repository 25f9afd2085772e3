-- ===== src/Core/Outcomes/Handled.antt =====
-- crates/auction-core/src/state.rs: no handler forgets an outcome, and a submission records one.
use dutch_auction.Base.{
  ◌⊎◌, inl, inr, ℕ, ◌≡◌, refl, ◌∙◌, subst, List, [], ◌∷◌, Option, some, none, lookup, if_cases,
  option_cases, ◌==◌, ◌&&◌, ltb, max,
}
use dutch_auction.Base.Int.{ltb_ℤ}
use dutch_auction.Proto.Ids.{ParticipantId, IdempotencyKey, Seq}
use dutch_auction.Proto.Money.{Price, Qty, is_zero, abs_diff}
use dutch_auction.Proto.Time.{Nanos}
use dutch_auction.Proto.Status.{RejectReason, Status, accepts_bids, is_pending, is_terminal}
use dutch_auction.Core.Schedule.{at_floor}
use dutch_auction.Core.Config.{price_at, floor_price}
use dutch_auction.Core.Command.{BidKind, Command}
use dutch_auction.Core.Event.{Outcome, Event}
use dutch_auction.Core.Ladder.{RestingBid, remove, drain_triggered}
use dutch_auction.Core.Bid.{PendingBid}
use dutch_auction.Core.State.{
  AuctionState, Out, window_bounds, push_pending, push_event, reserve, set_outcome, reject,
}
use dutch_auction.Core.Matching.{flush_window}
use dutch_auction.Core.Apply.{
  on_open, on_set_collateral, on_take, on_resting, on_kind, on_bid, cancel_found, on_cancel_resting,
  join_window, trigger_resting, close_at_floor, on_tick, reject_window, on_cancel,
  close_elapsed_window, handle, begin, apply,
}
use dutch_auction.Core.Outcomes.{IsKnown}
use dutch_auction.Core.Outcomes.Settled.{
  set_outcome-records, set_outcome-keeps, reject-records, reject-keeps, clear-keeps,
  drain_resting-keeps, reject_bids-keeps, flush_window-keeps,
}
use dutch_auction.Core.Invariant.Handlers.{triggered}
use dutch_auction.Core.Invariant.Reachable.{apply_inv}

push_pending-outcomes :
    (index : ℕ) (price : Price) (b : PendingBid) (s : AuctionState)
    → (push_pending index price b s).outcomes ≡ s.outcomes
unfolding push_pending
push_pending-outcomes index price b s =
    option_cases (λ (r : AuctionState). r.outcomes ≡ s.outcomes) s.window _ _ (λ _. refl)
      (λ _ _. refl)

join_window-outcomes :
    (index : ℕ) (price : Price) (bids : List RestingBid) (s : AuctionState)
    → (join_window index price bids s).outcomes ≡ s.outcomes
unfolding join_window
join_window-outcomes index price [] s = refl
join_window-outcomes index price (b ∷ bids) s =
    join_window-outcomes index price bids (push_pending index price (triggered b) s)
    ∙ push_pending-outcomes index price (triggered b) s

-- The bid that `on_take` queues.
abbrev pub new_take : Seq → ParticipantId → IdempotencyKey → Qty → Price → PendingBid
new_take seq participant key qty price = record {
  seq = seq;
  participant = participant;
  key = key;
  qty = qty;
  priority = price;
  reserve_price = price;
  resting_limit = none;
}

module _ (k : IdempotencyKey) where
  abbrev Known : Out → Type 0
  Known o = IsKnown k o.state

  -- A handler keeps what is known, and the handler of a bid makes its own key known: `key ≡ k` or known.
  pub close_elapsed_window-keeps :
      (ts : Nanos) (o : Out) → Known o → Known (close_elapsed_window ts o)
  unfolding close_elapsed_window
  close_elapsed_window-keeps ts o v =
      option_cases Known o.state.window o _ (λ _. v)
        (λ w _.
          if_cases Known (ltb w.index (window_bounds o.state.config ts).0) (flush_window o) o
            (λ _. flush_window-keeps k o v) (λ _. v))

  on_open-keeps : (o : Out) → Known o → Known (on_open o)
  unfolding on_open push_event
  on_open-keeps o v = if_cases Known (is_pending o.state.status) _ o (λ _. v) (λ _. v)

  -- An operation that records an outcome for `key` makes that key known, and forgets no other.
  set_outcome-answers :
      (key : IdempotencyKey) (out : Outcome) (s : AuctionState)
      → (key ≡ k) ⊎ IsKnown k s
      → IsKnown k (set_outcome key out s)
  set_outcome-answers key out s (inl e) =
      subst (λ j. IsKnown j (set_outcome key out s)) e (set_outcome-records key out s)
  set_outcome-answers key out s (inr v) = set_outcome-keeps k key out s v

  reject-answers :
      (key : IdempotencyKey) (reason : RejectReason) (o : Out)
      → (key ≡ k) ⊎ Known o
      → Known (reject key reason o)
  reject-answers key reason o (inl e) =
      subst (λ j. IsKnown j (reject key reason o).state) e (reject-records key reason o)
  reject-answers key reason o (inr v) = reject-keeps k key reason o v

  joined-answers :
      (index : ℕ) (price : Price) (b : PendingBid) (key : IdempotencyKey) (out : Outcome)
      (s : AuctionState)
      → (key ≡ k) ⊎ IsKnown k s
      → IsKnown k (set_outcome key out (push_pending index price b s))
  joined-answers index price b key out s v =
      set_outcome-answers key out (push_pending index price b s)
        (rw (push_pending-outcomes index price b s) v)

  on_take-answers :
      (seq : Seq) (ts : Nanos) (participant : ParticipantId) (key : IdempotencyKey) (qty : Qty)
      (expected : Price) (o : Out)
      → (key ≡ k) ⊎ Known o
      → Known (on_take seq ts participant key qty expected o)
  unfolding on_take push_event
  on_take-answers seq ts participant key qty expected o v =
      let s = o.state in
      let (covered, collateral) =
        reserve participant (window_bounds s.config ts).1 qty s.collateral in
      let reserved : AuctionState = record s { collateral = collateral } in
      let index : ℕ = (window_bounds s.config ts).0 in
      let price : Price = (window_bounds s.config ts).1 in
      let bid : PendingBid = new_take seq participant key qty price in
      let queued : Out = push_event (Event.queued key participant qty price) (record o {
        state = set_outcome key (Outcome.queued qty) (push_pending index price bid reserved);
      }) in
      let joined = joined-answers index price bid key (Outcome.queued qty) reserved v in
      if_cases Known (ltb s.config.price_tolerance (abs_diff (price_at s.config ts) expected)) _ _
        (λ _. reject-answers key _ o v)
        λ _.
          if_cases Known covered _ _
            (λ _.
              if_cases Known (s.config.batch_window == 0) _ _
                (λ _. flush_window-keeps k queued joined) (λ _. joined))
            (λ _.
              reject-answers key RejectReason.insufficient_collateral
                (record o { state = reserved }) v)

  on_resting-answers :
      (seq : Seq) (ts : Nanos) (participant : ParticipantId) (key : IdempotencyKey) (qty : Qty)
      (limit : Price) (o : Out)
      → (key ≡ k) ⊎ Known o
      → Known (on_resting seq ts participant key qty limit o)
  unfolding on_resting push_event set_outcome
  on_resting-answers seq ts participant key qty limit o v =
      let s = o.state in
      let (covered, collateral) = reserve participant limit qty s.collateral in
      if_cases Known (ltb_ℤ (price_at s.config ts) limit) _ _
        (λ _. reject-answers key (RejectReason.limit_above_clock (price_at s.config ts)) o v)
        λ _.
          if_cases Known covered _ _ (λ _. set_outcome-answers key (Outcome.resting qty) s v)
            (λ _.
              reject-answers key RejectReason.insufficient_collateral
                (record o { state = record s { collateral = collateral } }) v)

  on_kind-answers :
      (kind : BidKind) (seq : Seq) (ts : Nanos) (participant : ParticipantId) (key : IdempotencyKey)
      (qty : Qty) (o : Out)
      → (key ≡ k) ⊎ Known o
      → Known (on_kind kind seq ts participant key qty o)
  unfolding on_kind
  on_kind-answers (BidKind.take p) seq ts participant key qty o v =
      on_take-answers seq ts participant key qty p o v
  on_kind-answers (BidKind.resting p) seq ts participant key qty o v =
      on_resting-answers seq ts participant key qty p o v

  pub on_bid-answers :
      (seq : Seq) (ts : Nanos) (participant : ParticipantId) (key : IdempotencyKey) (qty : Qty)
      (kind : BidKind) (o : Out)
      → (key ≡ k) ⊎ Known o
      → Known (on_bid seq ts participant key qty kind o)
  unfolding on_bid push_event
  on_bid-answers seq ts participant key qty kind o v =
      option_cases Known (lookup key o.state.outcomes) _ _
        (λ _.
          if_cases Known (is_zero qty) _ _ (λ _. reject-answers key RejectReason.zero_quantity o v)
            λ _.
              if_cases Known (accepts_bids o.state.status) _ _
                (λ _. on_kind-answers kind seq ts participant key qty o v)
                (λ _. reject-answers key RejectReason.not_live o v))
        (λ out e. elim v as (λ _. IsKnown k o.state) [
          | inl same ↦ subst (λ j. IsKnown j o.state) same (out, e)
          | inr known ↦ known
        ])

  cancel_found-keeps :
      (participant : ParticipantId) (key : IdempotencyKey) (found : Option RestingBid) (o : Out)
      → Known o
      → Known (cancel_found participant key found o)
  unfolding cancel_found push_event set_outcome
  cancel_found-keeps participant key (some bid) o v =
      set_outcome-keeps k key Outcome.cancelled o.state v
  cancel_found-keeps participant key none o v =
      option_cases Known (lookup key o.state.outcomes) _ _ (λ _. v) (λ _ _. v)

  on_cancel_resting-keeps :
      (participant : ParticipantId) (key : IdempotencyKey) (o : Out)
      → Known o
      → Known (on_cancel_resting participant key o)
  unfolding on_cancel_resting
  on_cancel_resting-keeps participant key o v =
      let s = o.state in
      let (found, ladder) = remove s.resting participant key in
      cancel_found-keeps participant key found (record o { state = record s { resting = ladder } })
        v

  trigger_resting-keeps : (ts : Nanos) (o : Out) → Known o → Known (trigger_resting ts o)
  unfolding trigger_resting
  trigger_resting-keeps ts o v =
      let s = o.state in
      let (bids, ladder) = drain_triggered s.resting (price_at s.config ts) in
      rw
        (join_window-outcomes (window_bounds s.config ts).0 (window_bounds s.config ts).1 bids
          (record s { resting = ladder }))
        v

  close_at_floor-keeps : (ts : Nanos) (o : Out) → Known o → Known (close_at_floor ts o)
  unfolding close_at_floor
  close_at_floor-keeps ts o v =
      let f = flush_window-keeps k o v in
      if_cases Known (accepts_bids o.state.status && at_floor o.state.config.schedule ts) _ _
        (λ _.
          if_cases Known (accepts_bids (flush_window o).state.status) _ _
            (λ _. clear-keeps k (floor_price o.state.config) (flush_window o) f) (λ _. f))
        (λ _. v)

  on_tick-keeps : (ts : Nanos) (o : Out) → Known o → Known (on_tick ts o)
  unfolding on_tick
  on_tick-keeps ts o v =
      let joined : Out = trigger_resting ts o in
      let j = trigger_resting-keeps ts o v in
      if_cases Known (accepts_bids o.state.status) _ _
        (λ _.
          if_cases (λ (r : Out). Known (close_at_floor ts r)) (o.state.config.batch_window == 0)
            (flush_window joined) joined
            (λ _. close_at_floor-keeps ts (flush_window joined) (flush_window-keeps k joined j))
            (λ _. close_at_floor-keeps ts joined j))
        (λ _. v)

  reject_window-keeps : (o : Out) → Known o → Known (reject_window o)
  unfolding reject_window
  reject_window-keeps o v =
      option_cases Known o.state.window _ _ (λ _. v)
        (λ w _.
          reject_bids-keeps k RejectReason.not_live w.bids
            (record o { state = record o.state { window = none } }) v)

  on_cancel-keeps : (o : Out) → Known o → Known (on_cancel o)
  unfolding on_cancel push_event
  on_cancel-keeps o v =
      let stopped : Out = record o { state = record o.state { status = Status.cancelled } } in
      if_cases Known (is_terminal o.state.status) _ _ (λ _. v)
        (λ _.
          drain_resting-keeps k RejectReason.not_live (reject_window stopped)
            (reject_window-keeps stopped v))

  handle-keeps :
      (cmd : Command) (seq : Seq) (ts : Nanos) (o : Out) → Known o → Known (handle cmd seq ts o)
  unfolding handle on_set_collateral push_event
  handle-keeps Command.opening seq ts o v = on_open-keeps o v
  handle-keeps (Command.set_collateral p limit) seq ts o v = v
  handle-keeps (Command.submit_bid p key qty kind) seq ts o v =
      on_bid-answers seq ts p key qty kind o (inr v)
  handle-keeps (Command.cancel_resting p key) seq ts o v = on_cancel_resting-keeps p key o v
  handle-keeps Command.tick seq ts o v = on_tick-keeps ts o v
  handle-keeps Command.cancel seq ts o v = on_cancel-keeps o v

  -- What is known when the command is handled: the window that has elapsed is closed first.
  pub apply-keeps :
      (s : AuctionState) (seq : Seq) (ts : Nanos) (cmd : Command) {o : Out}
      → apply s seq ts cmd ≡ some o
      → IsKnown k s
      → Known o
  unfolding begin
  apply-keeps s seq ts cmd {o} e v = subst Known (apply_inv s seq ts cmd e).1 (
      handle-keeps cmd seq (max ts s.now) _
        (close_elapsed_window-keeps (max ts s.now) (begin seq ts s) v))
