-- ===== src/Core/Outcomes/InFlight/Bids.antt =====
-- crates/auction-core/src/state.rs: a bid that is admitted is in the
-- window or on the ladder.
use dutch_auction.Base.{
  ℕ, ◌≡◌, refl, subst, arith, [], ◌∷◌, ◌++◌, Option, some, none, ◌⊎◌, inl, inr, false, lookup,
  lookup-insert, if_cases, option_cases, Bool-cases, ◌==◌, ltb,
}
use dutch_auction.Base.Int.{ltb_ℤ}
use dutch_auction.Proto.Ids.{ParticipantId, IdempotencyKey, Seq}
use dutch_auction.Proto.Money.{Price, Qty, is_zero, abs_diff}
use dutch_auction.Proto.Time.{Nanos}
use dutch_auction.Proto.Status.{RejectReason, accepts_bids, is_terminal}
use dutch_auction.Core.Config.{price_at}
use dutch_auction.Core.Command.{BidKind}
use dutch_auction.Core.Event.{Outcome, Event}
use dutch_auction.Core.Ladder.{RestingBid, insert_bid, push_back}
use dutch_auction.Core.Bid.{PendingBid, OpenWindow}
use dutch_auction.Core.State.{
  AuctionState, Out, window_bounds, push_pending, push_event, reserve, set_outcome, reject,
}
use dutch_auction.Core.Apply.{on_take, on_resting, on_kind, on_bid}
use dutch_auction.Core.Outcomes.InFlight.{HasKey, InWindow, IsTracked, Rests-append, HasKey-append}
use dutch_auction.Core.Outcomes.InFlight.Answered.{reject-answers}
use dutch_auction.Core.Outcomes.InFlight.Settled.{update_level-keeps, update_level-adds}
use dutch_auction.Core.Outcomes.InFlight.Flushed.{open_of_accepts, flush_window-IsTracked}
use dutch_auction.Core.Outcomes.Handled.{new_take}

module _ (k : IdempotencyKey) where
  -- What `push_pending` does to the window.
  pub push_pending_window :
      (index : ℕ) (price : Price) (b : PendingBid) (s : AuctionState)
      → (w : OpenWindow) × (push_pending index price b s ≡ record s { window = some w })
        × (InWindow k s.window ⊎ (b.key ≡ k) → HasKey k w.bids)
  unfolding push_pending
  push_pending_window index price b s = pushed s.window refl
    where
      pushed :
          (accepting : Option OpenWindow)
          → s.window ≡ accepting
          → (w : OpenWindow) × (push_pending index price b s ≡ record s { window = some w })
            × (InWindow k s.window ⊎ (b.key ≡ k) → HasKey k w.bids)
      pushed none e = (
        record { index = index; price = price; bids = b ∷ [] },
        rw e refl,
        λ h. elim h [ inl i ↦ absurd (subst (InWindow k) e i) | inr same ↦ inl same ],
      )
      pushed (some w) e = (
        record w { bids = w.bids ++ b ∷ [] },
        rw e refl,
        λ h.
            HasKey-append k w.bids (b ∷ [])
              (elim h [ inl i ↦ inl (subst (InWindow k) e i) | inr same ↦ inr (inl same) ]),
      )

  -- An outcome on record for one key leaves the others tracked.
  recorded :
      (key : IdempotencyKey) (out : Outcome) (s : AuctionState)
      → (key == k) ≡ false
      → IsTracked k s
      → IsTracked k (set_outcome key out s)
  unfolding set_outcome
  recorded key out s other (inr v) = inr v
  recorded key out s other (inl a) = inl (rw (lookup-insert key k _ s.outcomes) (rw other a))

  reject-IsTracked :
      (key : IdempotencyKey) (reason : RejectReason) (o : Out)
      → IsTracked k o.state
      → IsTracked k (reject key reason o).state
  unfolding reject push_event set_outcome
  reject-IsTracked key reason o (inr v) = inr v
  reject-IsTracked key reason o (inl a) = inl (reject-answers k key reason o (inr a))

  pub push_pending-IsTracked :
      (index : ℕ) (price : Price) (b : PendingBid) (s : AuctionState)
      → IsTracked k s
      → IsTracked k (push_pending index price b s)
  push_pending-IsTracked index price b s v =
      let (w, e, adds) = push_pending_window index price b s in
      rw e (elim v [
        | inl a ↦ inl a
        | inr (nt, p) ↦ inr (nt, elim p [ inl h ↦ inl (adds (inl h)) | inr l ↦ inr l ])
      ])

  -- A bid that is queued is in the window.
  queued-IsTracked :
      (index : ℕ) (price : Price) (b : PendingBid) (out : Outcome) (s : AuctionState)
      → is_terminal s.status ≡ false
      → IsTracked k s
      → IsTracked k (set_outcome b.key out (push_pending index price b s))
  unfolding set_outcome
  queued-IsTracked index price b out s nt v = elim (Bool-cases (b.key == k)) [
    | inl same ↦
        let (w, e, adds) = push_pending_window index price b s in
        let mine : b.key ≡ k = ground arith in rw e (inr (nt, inl (adds (inr mine))))
    | inr other ↦
        recorded b.key out (push_pending index price b s) other
          (push_pending-IsTracked index price b s v)
  ]

  on_take-IsTracked :
      (seq : Seq) (ts : Nanos) (participant : ParticipantId) (key : IdempotencyKey) (qty : Qty)
      (expected : Price) (o : Out)
      → is_terminal o.state.status ≡ false
      → IsTracked k o.state
      → IsTracked k (on_take seq ts participant key qty expected o).state
  unfolding on_take push_event
  on_take-IsTracked seq ts participant key qty expected o nt v =
      let s = o.state in
      let (covered, collateral) =
        reserve participant (window_bounds s.config ts).1 qty s.collateral in
      let reserved : AuctionState = record s { collateral = collateral } in
      let index : ℕ = (window_bounds s.config ts).0 in
      let price : Price = (window_bounds s.config ts).1 in
      let bid : PendingBid = new_take seq participant key qty price in
      let queued : Out = push_event (Event.queued key participant qty price) (record o {
        state = set_outcome key (Outcome.queued qty) (push_pending index price bid reserved);
      }) in
      let joined = queued-IsTracked index price bid (Outcome.queued qty) reserved nt v in
      if_cases (λ (r : Out). IsTracked k r.state)
        (ltb s.config.price_tolerance (abs_diff (price_at s.config ts) expected)) _ _
        (λ _. reject-IsTracked key _ o v)
        λ _.
          if_cases (λ (r : Out). IsTracked k r.state) covered _ _
            (λ _.
              if_cases (λ (r : Out). IsTracked k r.state) (s.config.batch_window == 0) _ _
                (λ _. flush_window-IsTracked k queued joined) (λ _. joined))
            (λ _.
              reject-IsTracked key RejectReason.insufficient_collateral
                (record o { state = reserved }) v)

  -- A bid that rests is on the ladder.
  rested-IsTracked :
      (b : RestingBid) (out : Outcome) (s : AuctionState)
      → is_terminal s.status ≡ false
      → IsTracked k s
      → IsTracked k (set_outcome b.key out (record s { resting = insert_bid s.resting b }))
  unfolding set_outcome insert_bid push_back
  rested-IsTracked b out s nt v = elim (Bool-cases (b.key == k)) [
    | inl same ↦
        let mine : b.key ≡ k = ground arith in
        inr (
          nt,
          inr (
              update_level-adds k b.limit (push_back b) s.resting.levels
                (λ bids. Rests-append k bids (b ∷ []) (inr (inl mine)))),
        )
    | inr other ↦
        recorded b.key out (record s { resting = insert_bid s.resting b }) other
          (elim v [
            | inl a ↦ inl a
            | inr (nt', p) ↦ inr (
              nt',
              elim p [
                | inl h ↦ inl h
                | inr l ↦ inr (
                    update_level-keeps k b.limit (push_back b) s.resting.levels
                      (λ bids r. Rests-append k bids (b ∷ []) (inl r)) l)
              ],
            )
          ])
  ]

  on_resting-IsTracked :
      (seq : Seq) (ts : Nanos) (participant : ParticipantId) (key : IdempotencyKey) (qty : Qty)
      (limit : Price) (o : Out)
      → is_terminal o.state.status ≡ false
      → IsTracked k o.state
      → IsTracked k (on_resting seq ts participant key qty limit o).state
  unfolding on_resting push_event
  on_resting-IsTracked seq ts participant key qty limit o nt v =
      let s = o.state in
      let (covered, collateral) = reserve participant limit qty s.collateral in
      let reserved : AuctionState = record s { collateral = collateral } in
      let bid : RestingBid = record {
        seq = seq;
        participant = participant;
        key = key;
        qty = qty;
        limit = limit;
      } in
      if_cases (λ (r : Out). IsTracked k r.state) (ltb_ℤ (price_at s.config ts) limit) _ _
        (λ _. reject-IsTracked key (RejectReason.limit_above_clock (price_at s.config ts)) o v)
        λ _.
          if_cases (λ (r : Out). IsTracked k r.state) covered _ _
            (λ _. rested-IsTracked bid (Outcome.resting qty) reserved nt v)
            (λ _.
              reject-IsTracked key RejectReason.insufficient_collateral
                (record o { state = reserved }) v)

  on_kind-IsTracked :
      (kind : BidKind) (seq : Seq) (ts : Nanos) (participant : ParticipantId) (key : IdempotencyKey)
      (qty : Qty) (o : Out)
      → is_terminal o.state.status ≡ false
      → IsTracked k o.state
      → IsTracked k (on_kind kind seq ts participant key qty o).state
  unfolding on_kind
  on_kind-IsTracked (BidKind.take p) seq ts participant key qty o nt v =
      on_take-IsTracked seq ts participant key qty p o nt v
  on_kind-IsTracked (BidKind.resting p) seq ts participant key qty o nt v =
      on_resting-IsTracked seq ts participant key qty p o nt v

  pub on_bid-IsTracked :
      (seq : Seq) (ts : Nanos) (participant : ParticipantId) (key : IdempotencyKey) (qty : Qty)
      (kind : BidKind) (o : Out)
      → IsTracked k o.state
      → IsTracked k (on_bid seq ts participant key qty kind o).state
  unfolding on_bid push_event
  on_bid-IsTracked seq ts participant key qty kind o v =
      option_cases (λ (r : Out). IsTracked k r.state) (lookup key o.state.outcomes) _ _
        (λ _.
          if_cases (λ (r : Out). IsTracked k r.state) (is_zero qty) _ _
            (λ _. reject-IsTracked key RejectReason.zero_quantity o v)
            λ _.
              if_cases (λ (r : Out). IsTracked k r.state) (accepts_bids o.state.status) _ _
                (λ a.
                  on_kind-IsTracked kind seq ts participant key qty o
                    (open_of_accepts o.state.status a) v)
                (λ _. reject-IsTracked key RejectReason.not_live o v))
        (λ _ _. v)
