-- ===== src/Core/Outcomes/InFlight/Settled.antt =====
-- crates/auction-core/src/state.rs: settling a window answers its bids.
use dutch_auction.Base.{
  ℕ, ◌≡◌, arith, List, [], ◌∷◌, ◌⊎◌, inl, inr, if_cases, option_cases, ◌||◌, Bool, length,
}
use dutch_auction.Base.Int.{eq_ℤ, ltb_ℤ}
use dutch_auction.Proto.Ids.{IdempotencyKey}
use dutch_auction.Proto.Money.{Price, Qty, is_zero}
use dutch_auction.Proto.Status.{RejectReason}
use dutch_auction.Core.Event.{Outcome}
use dutch_auction.Core.Ladder.{Level, RestingBid, requeue, update_level, PriceLadder, push_front}
use dutch_auction.Core.Bid.{PendingBid}
use dutch_auction.Core.State.{AuctionState, Out, push_event, set_outcome}
use dutch_auction.Core.Matching.{
  place, sort_bids, comes_before, requeue_remainder, fill_bid, settle_bid, settle_bids,
}
use dutch_auction.Core.Outcomes.InFlight.{HasKey, Rests, OnLadder, Waits}
use dutch_auction.Core.Outcomes.InFlight.Answered.{set_outcome-answers, give_back-Waits}

module _ (k : IdempotencyKey) where
  pub update_level-keeps :
      (p : Price) (f : List RestingBid → List RestingBid) (levels : List Level)
      → ((bids : List RestingBid) → Rests k bids → Rests k (f bids))
      → OnLadder k levels
      → OnLadder k (update_level p f levels)
  unfolding update_level
  update_level-keeps p f [] keep v = absurd v
  update_level-keeps p f ((q, bids) ∷ rest) keep v =
      if_cases (OnLadder k) (eq_ℤ q p) _ _
        (λ _. elim v [ inl r ↦ inl (keep bids r) | inr l ↦ inr l ])
        λ _.
          if_cases (OnLadder k) (ltb_ℤ p q) _ _ (λ _. inr v)
            (λ _. elim v [ inl r ↦ inl r | inr l ↦ inr (update_level-keeps p f rest keep l) ])

  pub update_level-adds :
      (p : Price) (f : List RestingBid → List RestingBid) (levels : List Level)
      → ((bids : List RestingBid) → Rests k (f bids))
      → OnLadder k (update_level p f levels)
  unfolding update_level
  update_level-adds p f [] adds = inl (adds [])
  update_level-adds p f ((q, bids) ∷ rest) adds =
      if_cases (OnLadder k) (eq_ℤ q p) _ _ (λ _. inl (adds bids))
        λ _.
          if_cases (OnLadder k) (ltb_ℤ p q) _ _ (λ _. inl (adds []))
            (λ _. inr (update_level-adds p f rest adds))

  requeue-OnLadder :
      (l : PriceLadder) (bid : RestingBid) → OnLadder k l.levels → OnLadder k (requeue l bid).levels
  unfolding requeue push_front
  requeue-OnLadder l bid v =
      if_cases (λ (r : PriceLadder). OnLadder k r.levels) (is_zero bid.qty) _ _ (λ _. v)
        (λ _. update_level-keeps bid.limit (push_front bid) l.levels (λ bids r. inr r) v)

  requeue_remainder-Waits :
      (b : PendingBid) (left : Qty) (ex : Bool) (s : AuctionState)
      → Waits k s
      → Waits k (requeue_remainder b left ex s)
  unfolding requeue_remainder
  requeue_remainder-Waits b left ex s (inl a) =
      option_cases (Waits k) b.resting_limit s _ (λ _. inl a)
        (λ limit _. if_cases (Waits k) (is_zero left || ex) s _ (λ _. inl a) (λ _. inl a))
  requeue_remainder-Waits b left ex s (inr l) =
      option_cases (Waits k) b.resting_limit s _ (λ _. inr l)
        λ limit _.
          if_cases (Waits k) (is_zero left || ex) s _ (λ _. inr l)
            (λ _. inr (requeue-OnLadder s.resting _ l))

  fill_bid-Waits :
      (price : Price) (ex : Bool) (b : PendingBid) (alloc : ℕ) (o : Out)
      → (b.key ≡ k) ⊎ Waits k o.state
      → Waits k (fill_bid price ex b alloc o).state
  unfolding fill_bid push_event set_outcome
  fill_bid-Waits price ex b alloc o (inr (inr l)) = requeue_remainder-Waits b _ ex _ (inr l)
  fill_bid-Waits price ex b alloc o (inr (inl a)) =
      requeue_remainder-Waits b _ ex _
        (inl (set_outcome-answers k b.key (Outcome.filled alloc price) o.state tt (inr a)))
  fill_bid-Waits price ex b alloc o (inl e) =
      requeue_remainder-Waits b _ ex _
        (inl (set_outcome-answers k b.key (Outcome.filled alloc price) o.state tt (inl e)))

  settle_bid-Waits :
      (price : Price) (ex : Bool) (b : PendingBid) (alloc : ℕ) (o : Out)
      → (b.key ≡ k) ⊎ Waits k o.state
      → Waits k (settle_bid price ex b alloc o).state
  unfolding settle_bid
  settle_bid-Waits price ex b alloc o v =
      if_cases (λ (r : Out). Waits k r.state) (is_zero alloc) _ _
        (λ _.
          give_back-Waits k b.participant b.reserve_price b.qty b.key RejectReason.supply_exhausted
            o v)
        (λ _. fill_bid-Waits price ex b alloc o v)

  -- With one allocation for each, every bid of the window is answered, and the ladder loses none.
  pub settle_bids-Waits :
      (price : Price) (ex : Bool) (bids : List PendingBid) (allocs : List ℕ) (o : Out)
      → length allocs ≡ length bids
      → HasKey k bids ⊎ Waits k o.state
      → Waits k (settle_bids price ex bids allocs o).state
  unfolding settle_bids
  settle_bids-Waits price ex (b ∷ bids) (a ∷ allocs) o len (inl (inl e)) =
      settle_bids-Waits price ex bids allocs _ (omega (arith, len))
        (inr (settle_bid-Waits price ex b a o (inl e)))
  settle_bids-Waits price ex (b ∷ bids) (a ∷ allocs) o len (inl (inr r)) =
      settle_bids-Waits price ex bids allocs _ (omega (arith, len)) (inl r)
  settle_bids-Waits price ex (b ∷ bids) (a ∷ allocs) o len (inr v) =
      settle_bids-Waits price ex bids allocs _ (omega (arith, len))
        (inr (settle_bid-Waits price ex b a o (inr v)))
  settle_bids-Waits price ex [] [] o len (inr v) = v
  settle_bids-Waits price ex [] [] o len (inl r) = absurd r
  settle_bids-Waits price ex [] (a ∷ allocs) o len v = absurd (omega (arith, len))
  settle_bids-Waits price ex (b ∷ bids) [] o len v = absurd (omega (arith, len))

  place-HasKey :
      (b : PendingBid) (bids : List PendingBid)
      → (b.key ≡ k) ⊎ HasKey k bids
      → HasKey k (place b bids)
  unfolding place
  place-HasKey b [] v = v
  place-HasKey b (c ∷ bids) v =
      if_cases (HasKey k) (comes_before c b) _ _
        (λ _. elim v [
          | inl e ↦ inr (place-HasKey b bids (inl e))
          | inr w ↦ elim w [ inl e ↦ inl e | inr r ↦ inr (place-HasKey b bids (inr r)) ]
        ])
        (λ _. v)

  pub sort_bids-HasKey : (bids : List PendingBid) → HasKey k bids → HasKey k (sort_bids bids)
  unfolding sort_bids
  sort_bids-HasKey [] v = v
  sort_bids-HasKey (b ∷ bids) (inl e) = place-HasKey b (sort_bids bids) (inl e)
  sort_bids-HasKey (b ∷ bids) (inr r) =
      place-HasKey b (sort_bids bids) (inr (sort_bids-HasKey bids r))
