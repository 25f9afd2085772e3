-- ===== src/Core/Outcomes/InFlight/Handled.antt =====
-- crates/auction-core/src/state.rs: every handler keeps track of the bids without a final answer.
use dutch_auction.Base.{
  ℕ, ◌≡◌, refl, subst, List, [], ◌∷◌, none, ◌⊎◌, inl, inr, false, if_cases, option_cases,
  Bool-cases, ◌==◌, ◌&&◌, ltb,
}
use dutch_auction.Base.Int.{ltb_ℤ}
use dutch_auction.Proto.Ids.{IdempotencyKey, Seq}
use dutch_auction.Proto.Money.{Price}
use dutch_auction.Proto.Time.{Nanos}
use dutch_auction.Proto.Status.{RejectReason, Status, accepts_bids, is_pending, is_terminal}
use dutch_auction.Core.Schedule.{at_floor}
use dutch_auction.Core.Config.{price_at, floor_price}
use dutch_auction.Core.Command.{Command}
use dutch_auction.Core.Ladder.{
  Level, RestingBid, drain_triggered, highest_first, levels_below, levels_from,
}
use dutch_auction.Core.State.{AuctionState, Out, window_bounds, push_pending, push_event}
use dutch_auction.Core.Matching.{flush_window}
use dutch_auction.Core.Apply.{
  on_open, on_set_collateral, join_window, trigger_resting, close_at_floor, on_tick, reject_window,
  on_cancel, close_elapsed_window, handle,
}
use dutch_auction.Core.Invariant.Handlers.{triggered}
use dutch_auction.Core.Outcomes.InFlight.{InWindow, Rests, OnLadder, IsAnswered, Waits, IsTracked}
use dutch_auction.Core.Outcomes.InFlight.Answered.{
  reject_bids-answers, drain_resting-answers, clear-answers, highest_first-Rests, reject_bids-Waits,
}
use dutch_auction.Core.Outcomes.InFlight.Flushed.{
  Flushed-IsTracked, Flushed-Waits, flush_window-Flushed, flush_window-IsTracked,
}
use dutch_auction.Core.Outcomes.InFlight.Bids.{push_pending_window, on_bid-IsTracked}
use dutch_auction.Core.Outcomes.InFlight.Withdrawn.{on_cancel_resting-IsTracked}

module _ (k : IdempotencyKey) where
  abbrev Tracked : Out → Type 0
  Tracked o = IsTracked k o.state

  drained :
      (p : Price) (levels : List Level)
      → OnLadder k levels
      → Rests k (highest_first (levels_from p levels)) ⊎ OnLadder k (levels_below p levels)
  unfolding levels_from levels_below
  drained p [] l = absurd l
  drained p ((q, bids) ∷ rest) l = elim (Bool-cases (ltb_ℤ q p)) [
    | inl below ↦ rw below (elim l [
      | inl r ↦ inr (inl r)
      | inr l' ↦ elim (drained p rest l') [ inl r ↦ inl r | inr w ↦ inr (inr w) ]
    ])
    | inr above ↦ rw above (inl (highest_first-Rests k ((q, bids) ∷ rest) l))
  ]

  join_window-IsTracked :
      (index : ℕ) (price : Price) (bids : List RestingBid) (s : AuctionState)
      → IsTracked k s ⊎ ((is_terminal s.status ≡ false) × Rests k bids)
      → IsTracked k (join_window index price bids s)
  unfolding join_window
  join_window-IsTracked index price [] s (inl v) = v
  join_window-IsTracked index price [] s (inr (nt, r)) = absurd r
  join_window-IsTracked index price (b ∷ bids) s v =
      let (w, e, adds) = push_pending_window k index price (triggered b) s in
      join_window-IsTracked index price bids (push_pending index price (triggered b) s) (
        rw e (elim v [
          | inl (inl a) ↦ inl (inl a)
          | inl (inr (nt, inl h)) ↦ inl (inr (nt, inl (adds (inl h))))
          | inl (inr (nt, inr l)) ↦ inl (inr (nt, inr l))
          | inr (nt, inl mine) ↦ inl (inr (nt, inl (adds (inr mine))))
          | inr (nt, inr r) ↦ inr (nt, r)
        ]))

  trigger_resting-IsTracked : (ts : Nanos) (o : Out) → Tracked o → Tracked (trigger_resting ts o)
  unfolding trigger_resting drain_triggered
  trigger_resting-IsTracked ts o v =
      let s = o.state in
      let (bids, ladder) = drain_triggered s.resting (price_at s.config ts) in
      let (index, price) = window_bounds s.config ts in
      join_window-IsTracked index price bids (record s { resting = ladder })
        (elim v [
          | inl a ↦ inl (inl a)
          | inr (nt, inl h) ↦ inl (inr (nt, inl h))
          | inr (nt, inr l) ↦ elim (drained (price_at s.config ts) s.resting.levels l) [
            | inl r ↦ inr (nt, r)
            | inr l' ↦ inl (inr (nt, inr l'))
          ]
        ])

  close_at_floor-IsTracked : (ts : Nanos) (o : Out) → Tracked o → Tracked (close_at_floor ts o)
  unfolding close_at_floor
  close_at_floor-IsTracked ts o v =
      let f = flush_window-Flushed k o v in
      let flushed = flush_window o in
      if_cases Tracked (accepts_bids o.state.status && at_floor o.state.config.schedule ts) _ _
        (λ _.
          if_cases Tracked (accepts_bids flushed.state.status) _ _
            (λ _. inl (
              clear-answers k (floor_price o.state.config) flushed
                (Flushed-Waits k flushed.state f)))
            (λ _. Flushed-IsTracked k flushed.state f))
        (λ _. v)

  on_tick-IsTracked : (ts : Nanos) (o : Out) → Tracked o → Tracked (on_tick ts o)
  unfolding on_tick
  on_tick-IsTracked ts o v =
      let joined : Out = trigger_resting ts o in
      let j = trigger_resting-IsTracked ts o v in
      if_cases Tracked (accepts_bids o.state.status) _ _
        (λ _.
          if_cases (λ (r : Out). Tracked (close_at_floor ts r)) (o.state.config.batch_window == 0)
            (flush_window joined) joined
            (λ _.
              close_at_floor-IsTracked ts (flush_window joined) (flush_window-IsTracked k joined j))
            (λ _. close_at_floor-IsTracked ts joined j))
        (λ _. v)

  reject_window-Waits :
      (o : Out)
      → IsAnswered k o.state ⊎ (InWindow k o.state.window ⊎ OnLadder k o.state.resting.levels)
      → Waits k (reject_window o).state
  unfolding reject_window
  reject_window-Waits o v =
      let taken : Out = record o { state = record o.state { window = none } } in
      option_cases (λ (r : Out). Waits k r.state) o.state.window _ _
        (λ e. elim v [
          | inl a ↦ inl a
          | inr (inl h) ↦ absurd (subst (InWindow k) e h)
          | inr (inr l) ↦ inr l
        ])
        λ w e. elim v [
          | inl a ↦ inl (reject_bids-answers k RejectReason.not_live w.bids taken (inr a))
          | inr (inl h) ↦ inl (
              reject_bids-answers k RejectReason.not_live w.bids taken
                (inl (subst (InWindow k) e h)))
          | inr (inr l) ↦ reject_bids-Waits k RejectReason.not_live w.bids taken (inr l)
        ]

  on_cancel-IsTracked : (o : Out) → Tracked o → Tracked (on_cancel o)
  unfolding on_cancel push_event
  on_cancel-IsTracked o v =
      let stopped : Out = record o { state = record o.state { status = Status.cancelled } } in
      if_cases Tracked (is_terminal o.state.status) _ _ (λ _. v)
        (λ _. inl (
          drain_resting-answers k RejectReason.not_live (reject_window stopped)
            (reject_window-Waits stopped (elim v [ inl a ↦ inl a | inr (nt, w) ↦ inr w ]))))

  on_open-IsTracked : (o : Out) → Tracked o → Tracked (on_open o)
  unfolding on_open push_event is_terminal
  on_open-IsTracked o (inl a) =
      if_cases Tracked (is_pending o.state.status) _ o (λ _. inl a) (λ _. inl a)
  on_open-IsTracked o (inr (nt, v)) =
      if_cases Tracked (is_pending o.state.status) _ o (λ _. inr (refl, v)) (λ _. inr (nt, v))

  pub close_elapsed_window-IsTracked :
      (ts : Nanos) (o : Out) → Tracked o → Tracked (close_elapsed_window ts o)
  unfolding close_elapsed_window
  close_elapsed_window-IsTracked ts o v =
      option_cases Tracked o.state.window o _ (λ _. v)
        (λ w _.
          if_cases Tracked (ltb w.index (window_bounds o.state.config ts).0) (flush_window o) o
            (λ _. flush_window-IsTracked k o v) (λ _. v))

  pub handle-IsTracked :
      (cmd : Command) (seq : Seq) (ts : Nanos) (o : Out) → Tracked o → Tracked (handle cmd seq ts o)
  unfolding handle on_set_collateral push_event
  handle-IsTracked Command.opening seq ts o v = on_open-IsTracked o v
  handle-IsTracked (Command.set_collateral p limit) seq ts o v = v
  handle-IsTracked (Command.submit_bid p key qty kind) seq ts o v =
      on_bid-IsTracked k seq ts p key qty kind o v
  handle-IsTracked (Command.cancel_resting p key) seq ts o v =
      on_cancel_resting-IsTracked k p key o v
  handle-IsTracked Command.tick seq ts o v = on_tick-IsTracked ts o v
  handle-IsTracked Command.cancel seq ts o v = on_cancel-IsTracked o v
