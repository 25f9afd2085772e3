-- ===== src/Core/Outcomes/InFlight/Withdrawn.antt =====
-- crates/auction-core/src/state.rs: withdrawing one bid keeps track of the others.
use dutch_auction.Base.{
  ◌≡◌, ◌∙◌, sym, subst, arith, List, [], ◌∷◌, Option, some, none, ◌⊎◌, inl, inr, lookup, if_cases,
  option_cases, Option-cases,
}
use dutch_auction.Proto.Ids.{ParticipantId, IdempotencyKey}
use dutch_auction.Proto.Money.{Price}
use dutch_auction.Core.Event.{Outcome}
use dutch_auction.Core.Ladder.{
  Level, PriceLadder, RestingBid, remove, prune, is_bid_of, take_from_level, take_from_levels,
}
use dutch_auction.Core.State.{Out, push_event, set_outcome}
use dutch_auction.Core.Apply.{cancel_found, on_cancel_resting}
use dutch_auction.Core.Outcomes.InFlight.{Rests, OnLadder, IsTracked}
use dutch_auction.Core.Outcomes.InFlight.Answered.{set_outcome-answers}

abbrev IsSome : Option RestingBid → Type 0
IsSome none = ⊥
IsSome (some b) = Unit

module _ (k : IdempotencyKey) where
  abbrev Tracked : Out → Type 0
  Tracked o = IsTracked k o.state

  -- Taking a bid with `key` out of a level, or of the levels, leaves every bid of another key.
  abbrev Left : IdempotencyKey → Option (RestingBid × List RestingBid) → Type 0
  Left key none = Unit
  Left key (some (found, rest)) = (key ≡ k) ⊎ Rests k rest

  abbrev LeftOver : IdempotencyKey → Option (RestingBid × List Level) → Type 0
  LeftOver key none = Unit
  LeftOver key (some (found, rest)) = (key ≡ k) ⊎ OnLadder k rest

  behind :
      (b : RestingBid) (key : IdempotencyKey) (r : Option (RestingBid × List RestingBid))
      → (b.key ≡ k) ⊎ Left key r
      → Left key (elim r [ none ↦ none | some (found, rest) ↦ some (found, b ∷ rest) ])
  behind b key none v = tt
  behind b key (some (found, rest)) (inl e) = inr (inl e)
  behind b key (some (found, rest)) (inr (inl e)) = inl e
  behind b key (some (found, rest)) (inr (inr r)) = inr (inr r)

  take_from_level-Left :
      (p : ParticipantId) (key : IdempotencyKey) (bids : List RestingBid)
      → Rests k bids
      → Left key (take_from_level p key bids)
  unfolding take_from_level is_bid_of
  take_from_level-Left p key [] r = tt
  take_from_level-Left p key (b ∷ bids) r =
      if_cases (Left key) (is_bid_of p key b) _ _
        (λ mine.
          let same : b.key ≡ key = ground arith in
          elim r [ inl e ↦ inl (sym same ∙ e) | inr w ↦ inr w ])
        (λ _.
          behind b key (take_from_level p key bids)
            (elim r [ inl e ↦ inl e | inr w ↦ inr (take_from_level-Left p key bids w) ]))

  -- The level is searched first, and then those above it.
  above :
      (q : Price) (bids : List RestingBid) (rest : List Level) (key : IdempotencyKey)
      (here : Option (RestingBid × List RestingBid)) (later : Option (RestingBid × List Level))
      → (Left key here × Rests k bids) ⊎ (LeftOver key later × OnLadder k rest)
      → LeftOver key (elim here [
        | some (found, bids') ↦ some (found, (q, bids') ∷ rest)
        | none ↦ elim later [ none ↦ none | some (found, rest') ↦ some (found, (q, bids) ∷ rest') ]
      ])
  above q bids rest key (some (found, bids')) later (inl (inl e, _)) = inl e
  above q bids rest key (some (found, bids')) later (inl (inr r, _)) = inr (inl r)
  above q bids rest key (some (found, bids')) later (inr (_, l)) = inr (inr l)
  above q bids rest key none none v = tt
  above q bids rest key none (some (found, rest')) (inl (_, r)) = inr (inl r)
  above q bids rest key none (some (found, rest')) (inr (inl e, _)) = inl e
  above q bids rest key none (some (found, rest')) (inr (inr l, _)) = inr (inr l)

  take_from_levels-LeftOver :
      (p : ParticipantId) (key : IdempotencyKey) (levels : List Level)
      → OnLadder k levels
      → LeftOver key (take_from_levels p key levels)
  unfolding take_from_levels
  take_from_levels-LeftOver p key [] l = tt
  take_from_levels-LeftOver p key ((q, bids) ∷ rest) (inl r) =
      above q bids rest key (take_from_level p key bids) (take_from_levels p key rest)
        (inl (take_from_level-Left p key bids r, r))
  take_from_levels-LeftOver p key ((q, bids) ∷ rest) (inr l) =
      above q bids rest key (take_from_level p key bids) (take_from_levels p key rest)
        (inr (take_from_levels-LeftOver p key rest l, l))

  prune-OnLadder : (levels : List Level) → OnLadder k levels → OnLadder k (prune levels)
  unfolding prune
  prune-OnLadder [] l = l
  prune-OnLadder ((p, []) ∷ rest) (inl r) = absurd r
  prune-OnLadder ((p, []) ∷ rest) (inr l) = prune-OnLadder rest l
  prune-OnLadder ((p, b ∷ bids) ∷ rest) (inl r) = inl r
  prune-OnLadder ((p, b ∷ bids) ∷ rest) (inr l) = inr (prune-OnLadder rest l)

  remove-OnLadder :
      (l : PriceLadder) (p : ParticipantId) (key : IdempotencyKey)
      → OnLadder k l.levels
      → (IsSome (remove l p key).0 × (key ≡ k)) ⊎ OnLadder k (remove l p key).1.levels
  unfolding remove
  remove-OnLadder l p key v = elim (Option-cases (take_from_levels p key l.levels)) [
    | inl e ↦ rw (e, remove) (inr v)
    | inr ((found, left), e) ↦
        rw (e, remove)
          (elim (subst (LeftOver key) e (take_from_levels-LeftOver p key l.levels v)) [
            | inl mine ↦ inl (tt, mine)
            | inr w ↦ inr (prune-OnLadder left w)
          ])
  ]

  cancel_found-IsTracked :
      (p : ParticipantId) (key : IdempotencyKey) (found : Option RestingBid) (o : Out)
      → (IsSome found × (key ≡ k)) ⊎ Tracked o
      → Tracked (cancel_found p key found o)
  unfolding cancel_found push_event set_outcome
  cancel_found-IsTracked p key (some bid) o (inl (_, mine)) =
      inl (set_outcome-answers k key Outcome.cancelled o.state tt (inl mine))
  cancel_found-IsTracked p key (some bid) o (inr (inl a)) =
      inl (set_outcome-answers k key Outcome.cancelled o.state tt (inr a))
  cancel_found-IsTracked p key (some bid) o (inr (inr v)) = inr v
  cancel_found-IsTracked p key none o (inl (none_found, _)) = absurd none_found
  cancel_found-IsTracked p key none o (inr v) =
      option_cases Tracked (lookup key o.state.outcomes) _ _ (λ _. v) (λ _ _. v)

  pub on_cancel_resting-IsTracked :
      (p : ParticipantId) (key : IdempotencyKey) (o : Out)
      → Tracked o
      → Tracked (on_cancel_resting p key o)
  unfolding on_cancel_resting
  on_cancel_resting-IsTracked p key o v =
      let s = o.state in
      let (found, ladder) = remove s.resting p key in
      let left : Out = record o { state = record s { resting = ladder } } in
      cancel_found-IsTracked p key found left (elim v [
        | inl a ↦ inr (inl a)
        | inr (nt, w) ↦ elim w [
          | inl h ↦ inr (inr (nt, inl h))
          | inr l ↦ elim (remove-OnLadder s.resting p key l) [
            | inl mine ↦ inl mine
            | inr l' ↦ inr (inr (nt, inr l'))
          ]
        ]
      ])
