-- ===== src/Core/Outcomes/InFlight/Flushed.antt =====
-- crates/auction-core/src/state.rs: once a window is flushed, a bid
-- without a final answer is on the ladder of a live auction.
use dutch_auction.Base.{
  ◌≡◌, ◌∙◌, subst, ap, arith, some, none, ◌⊎◌, inl, inr, true, false, if_cases, option_cases,
}
use dutch_auction.Proto.Ids.{IdempotencyKey}
use dutch_auction.Proto.Status.{RejectReason, Status, accepts_bids, is_terminal}
use dutch_auction.Core.Bid.{OpenWindow}
use dutch_auction.Core.State.{AuctionState, Out}
use dutch_auction.Core.Matching.{
  Matched, sort_bids, match_window, settle_bids, settle_window, flush_window,
}
use dutch_auction.Core.Matching.Levels.{length-match_window}
use dutch_auction.Core.Matching.Settle.{settle_bids-Settles, reject_bids-SameFills}
use dutch_auction.Core.Clear.{clear}
use dutch_auction.Core.Outcomes.InFlight.{HasKey, InWindow, OnLadder, IsAnswered, Waits, IsTracked}
use dutch_auction.Core.Outcomes.InFlight.Answered.{
  reject_bids-Waits, reject_bids-answers, clear-answers,
}
use dutch_auction.Core.Outcomes.InFlight.Settled.{settle_bids-Waits, sort_bids-HasKey}

pub open_of_accepts : (st : Status) → accepts_bids st ≡ true → is_terminal st ≡ false
unfolding accepts_bids is_terminal
open_of_accepts st e = ground arith

module _ (k : IdempotencyKey) where
  -- Once the window is gone: answered, or on the ladder of an auction that has not ended.
  abbrev pub Flushed : AuctionState → Type 0
  Flushed s = IsAnswered k s ⊎ ((is_terminal s.status ≡ false) × OnLadder k s.resting.levels)

  pub Flushed-IsTracked : (s : AuctionState) → Flushed s → IsTracked k s
  Flushed-IsTracked s (inl a) = inl a
  Flushed-IsTracked s (inr (nt, l)) = inr (nt, inr l)

  pub Flushed-Waits : (s : AuctionState) → Flushed s → Waits k s
  Flushed-Waits s (inl a) = inl a
  Flushed-Waits s (inr (nt, l)) = inr l

  -- What `IsTracked` says of a state whose window is `w`.
  pub in_window :
      (s : AuctionState) (w : OpenWindow)
      → s.window ≡ some w
      → IsTracked k s
      → IsAnswered k s
        ⊎ ((is_terminal s.status ≡ false) × (HasKey k w.bids ⊎ OnLadder k s.resting.levels))
  in_window s w e (inl a) = inl a
  in_window s w e (inr (nt, inl h)) = inr (nt, inl (subst (InWindow k) e h))
  in_window s w e (inr (nt, inr l)) = inr (nt, inr l)

  pub no_window : (s : AuctionState) → s.window ≡ none → IsTracked k s → Flushed s
  no_window s e (inl a) = inl a
  no_window s e (inr (nt, inl h)) = absurd (subst (InWindow k) e h)
  no_window s e (inr (nt, inr l)) = inr (nt, l)

  settle_window-Flushed :
      (w : OpenWindow) (o : Out)
      → accepts_bids o.state.status ≡ true
      → HasKey k w.bids ⊎ Waits k o.state
      → Flushed (settle_window w o).state
  unfolding settle_window
  settle_window-Flushed w o accepting v =
      let s = o.state in
      let bids = sort_bids w.bids in
      let m : Matched = match_window bids s.supply_remaining in
      let taken : Out = record o { state = record s { supply_remaining = m.supply } } in
      let settled : Out = settle_bids w.price m.exhausted bids m.allocs taken in
      let len = length-match_window w.bids s.supply_remaining in
      let found : HasKey k bids ⊎ Waits k taken.state = elim v [
        | inl h ↦ inl (sort_bids-HasKey k w.bids h)
        | inr u ↦ inr u
      ] in
      let kept = settle_bids-Waits k w.price m.exhausted bids m.allocs taken len found in
      let same = settle_bids-Settles w.price m.exhausted bids m.allocs taken len in
      if_cases (λ (r : Out). Flushed r.state) m.exhausted (clear w.price settled) settled
        (λ _. inl (clear-answers k w.price settled kept))
        (λ _. elim kept [
          | inl a ↦ inl a
          | inr l ↦ inr (ap is_terminal same.status ∙ open_of_accepts s.status accepting, l)
        ])

  pub flush_window-Flushed : (o : Out) → IsTracked k o.state → Flushed (flush_window o).state
  unfolding flush_window
  flush_window-Flushed o v =
      let taken : Out = record o { state = record o.state { window = none } } in
      option_cases (λ (r : Out). Flushed r.state) o.state.window o _ (λ e. no_window o.state e v)
        λ w e.
          if_cases (λ (r : Out). Flushed r.state) (accepts_bids o.state.status) _ _
            (λ accepting. settle_window-Flushed w taken accepting (elim (in_window o.state w e v) [
              | inl a ↦ inr (inl a)
              | inr (nt, p) ↦ elim p [ inl h ↦ inl h | inr l ↦ inr (inr l) ]
            ]))
            (λ _. elim (in_window o.state w e v) [
              | inl a ↦ inl (reject_bids-answers k RejectReason.not_live w.bids taken (inr a))
              | inr (nt, p) ↦ elim p [
                | inl h ↦ inl (reject_bids-answers k RejectReason.not_live w.bids taken (inl h))
                | inr l ↦ elim (reject_bids-Waits k RejectReason.not_live w.bids taken (inr l)) [
                  | inl a ↦ inl a
                  | inr l' ↦ inr (
                    ap is_terminal (reject_bids-SameFills RejectReason.not_live w.bids taken).status
                        ∙ nt,
                    l',
                  )
                ]
              ]
            ])

  pub flush_window-IsTracked : (o : Out) → IsTracked k o.state → IsTracked k (flush_window o).state
  flush_window-IsTracked o v = Flushed-IsTracked (flush_window o).state (flush_window-Flushed o v)
