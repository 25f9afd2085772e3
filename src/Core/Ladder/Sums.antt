-- ===== src/Core/Ladder/Sums.antt =====
-- crates/auction-core/src/ladder.rs: what the operations do to the sum of a measure over all resting
-- bids, and to a predicate on each of them.
use dutch_auction.Base.{
  ℕ, ◌+◌, ◌≡◌, refl, subst, arith, List, [], ◌∷◌, ◌++◌, Option, some, none, All, All-append,
  All-front, All-back, if_cases, total_of, total_of-append, Option-cases, inl, inr, false,
}
use dutch_auction.Base.Int.{ltb_ℤ, eq_ℤ}
use dutch_auction.Proto.Ids.{ParticipantId, IdempotencyKey}
use dutch_auction.Proto.Money.{Price, is_zero}
use dutch_auction.Core.Ladder.{
  RestingBid, Level, PriceLadder, update_level, push_back, push_front, insert_bid, requeue,
  levels_below, levels_from, highest_first, is_bid_of, take_from_level, take_from_levels, prune,
  remove,
}
use dutch_auction.Core.Ladder.Drain.{split_levels}

module _ (f : RestingBid → ℕ) where
  abbrev pub sum_of : List Level → ℕ
  sum_of = total_of (λ (l : Level). total_of f l.1)

  pub sum-update_level :
      (p : Price) (g : List RestingBid → List RestingBid) (n : ℕ) (levels : List Level)
      → ((bids : List RestingBid) → total_of f (g bids) ≡ n + total_of f bids)
      → sum_of (update_level p g levels) ≡ n + sum_of levels
  unfolding update_level
  sum-update_level p g n [] h = omega (arith, h [])
  sum-update_level p g n ((q, bids) ∷ rest) h =
      if_cases (λ (r : List Level). sum_of r ≡ n + (total_of f bids + sum_of rest)) (eq_ℤ q p) _ _
        (λ _. omega (arith, h bids))
        λ _.
          if_cases (λ (r : List Level). sum_of r ≡ n + (total_of f bids + sum_of rest)) (ltb_ℤ p q)
            _ _ (λ _. omega (arith, h [])) (λ _. omega (arith, sum-update_level p g n rest h))

  pub sum-insert_bid :
      (l : PriceLadder) (b : RestingBid) → sum_of (insert_bid l b).levels ≡ f b + sum_of l.levels
  unfolding insert_bid push_back
  sum-insert_bid l b =
      sum-update_level b.limit (push_back b) (f b) l.levels
        (λ bids. omega (arith, total_of-append f bids (b ∷ [])))

  pub sum-requeue :
      (l : PriceLadder) (b : RestingBid)
      → is_zero b.qty ≡ false
      → sum_of (requeue l b).levels ≡ f b + sum_of l.levels
  unfolding requeue push_front
  sum-requeue l b e = rw e (sum-update_level b.limit (push_front b) (f b) l.levels (λ bids. refl))

  pub sum-highest_first : (levels : List Level) → total_of f (highest_first levels) ≡ sum_of levels
  unfolding highest_first
  sum-highest_first [] = refl
  sum-highest_first ((p, bids) ∷ rest) =
      omega (arith, total_of-append f (highest_first rest) bids, sum-highest_first rest)

  pub sum-split :
      (p : Price) (levels : List Level)
      → total_of f (highest_first (levels_from p levels)) + sum_of (levels_below p levels)
        ≡ sum_of levels
  sum-split p levels =
      let whole : sum_of (levels_below p levels ++ levels_from p levels) ≡ sum_of levels =
        rw (split_levels p levels) refl in
      omega (
        arith,
        whole,
        sum-highest_first (levels_from p levels),
        total_of-append (λ (l : Level). total_of f l.1) (levels_below p levels)
            (levels_from p levels),
      )

module _ (Q : RestingBid → Type 0) where
  abbrev pub AllBids : List Level → Type 0
  AllBids = All (λ (l : Level). All Q l.1)

  pub AllBids-update_level :
      (p : Price) (g : List RestingBid → List RestingBid) (levels : List Level)
      → ((bids : List RestingBid) → All Q bids → All Q (g bids))
      → AllBids levels
      → AllBids (update_level p g levels)
  unfolding update_level
  AllBids-update_level p g [] h v = (h [] tt, tt)
  AllBids-update_level p g ((q, bids) ∷ rest) h v =
      if_cases AllBids (eq_ℤ q p) _ _ (λ _. (h bids v.0, v.1))
        λ _.
          if_cases AllBids (ltb_ℤ p q) _ _ (λ _. (h [] tt, v))
            (λ _. (v.0, AllBids-update_level p g rest h v.1))

  pub AllBids-insert_bid :
      (l : PriceLadder) (b : RestingBid) → Q b → AllBids l.levels → AllBids (insert_bid l b).levels
  unfolding insert_bid push_back
  AllBids-insert_bid l b h =
      AllBids-update_level b.limit (push_back b) l.levels
        (λ bids v. All-append Q bids (b ∷ []) v (h, tt))

  pub AllBids-requeue :
      (l : PriceLadder) (b : RestingBid) → Q b → AllBids l.levels → AllBids (requeue l b).levels
  unfolding requeue push_front
  AllBids-requeue l b h v =
      if_cases (λ (r : PriceLadder). AllBids r.levels) (is_zero b.qty) _ _ (λ _. v)
        (λ _. AllBids-update_level b.limit (push_front b) l.levels (λ bids w. (h, w)) v)

  pub All-highest_first : (levels : List Level) → AllBids levels → All Q (highest_first levels)
  unfolding highest_first
  All-highest_first [] v = tt
  All-highest_first ((p, bids) ∷ rest) v =
      All-append Q (highest_first rest) bids (All-highest_first rest v.1) v.0

  pub AllBids-split :
      (p : Price) (levels : List Level)
      → AllBids levels
      → All Q (highest_first (levels_from p levels)) × AllBids (levels_below p levels)
  AllBids-split p levels v =
      let whole : AllBids (levels_below p levels ++ levels_from p levels) =
        rw (split_levels p levels) v in
      (
        All-highest_first (levels_from p levels) (
            All-back (λ (l : Level). All Q l.1) (levels_below p levels) (levels_from p levels)
              whole),
        All-front (λ (l : Level). All Q l.1) (levels_below p levels) (levels_from p levels) whole,
      )

-- Dropping the empty levels.
pub prune-All : (P : Level → Type 0) (levels : List Level) → All P levels → All P (prune levels)
unfolding prune
prune-All P [] v = tt
prune-All P ((p, []) ∷ rest) v = prune-All P rest v.1
prune-All P ((p, b ∷ bids) ∷ rest) v = (v.0, prune-All P rest v.1)

pub sum-prune :
    (f : RestingBid → ℕ) (levels : List Level) → sum_of f (prune levels) ≡ sum_of f levels
unfolding prune
sum-prune f [] = refl
sum-prune f ((p, []) ∷ rest) = omega (arith, sum-prune f rest)
sum-prune f ((p, b ∷ bids) ∷ rest) = omega (arith, sum-prune f rest)

-- What is taken out by `remove`, and what is left.
module _ (f : RestingBid → ℕ) (Q : RestingBid → Type 0) (who : ParticipantId)
    (key : IdempotencyKey) where
  abbrev Out : ℕ → Option (RestingBid × List RestingBid) → Type 0
  Out n none = Unit
  Out n (some (found, rest)) =
      (found.participant ≡ who) × Q found × All Q rest × (f found + total_of f rest ≡ n)

  abbrev OutOf : ℕ → Option (RestingBid × List Level) → Type 0
  OutOf n none = Unit
  OutOf n (some (found, left)) =
      (found.participant ≡ who) × Q found × AllBids Q left × (f found + sum_of f left ≡ n)

  -- A bid that the ladder gives up, or a ladder that stays as it was.
  abbrev pub Removed : PriceLadder → Option RestingBid × PriceLadder → Type 0
  Removed l (none, left) = left ≡ l
  Removed l (some found, left) =
      (found.participant ≡ who)
      × Q found
      × AllBids Q left.levels
      × (f found + sum_of f left.levels ≡ sum_of f l.levels)

  Out-behind :
      (b : RestingBid) (n : ℕ) (r : Option (RestingBid × List RestingBid))
      → Q b
      → Out n r
      → Out (f b + n) (elim r [ none ↦ none | some (found, rest) ↦ some (found, b ∷ rest) ])
  Out-behind b n none h v = tt
  Out-behind b n (some (found, rest)) h v = (v.0, v.1, (h, v.2), omega (arith, v.3))

  take_from_level-Out :
      (bids : List RestingBid) → All Q bids → Out (total_of f bids) (take_from_level who key bids)
  unfolding take_from_level is_bid_of
  take_from_level-Out [] v = tt
  take_from_level-Out (b ∷ bids) v =
      if_cases (Out (f b + total_of f bids)) (is_bid_of who key b) _ _
        (λ e. (ground arith, v.0, v.1, refl))
        (λ _.
          Out-behind b (total_of f bids) (take_from_level who key bids) v.0
            (take_from_level-Out bids v.1))

  OutOf-level :
      (q : Price) (bids : List RestingBid) (rest : List Level)
      (here : Option (RestingBid × List RestingBid)) (later : Option (RestingBid × List Level))
      → AllBids Q ((q, bids) ∷ rest)
      → Out (total_of f bids) here
      → OutOf (sum_of f rest) later
      → OutOf (total_of f bids + sum_of f rest) (elim here [
        | some (found, bids') ↦ some (found, (q, bids') ∷ rest)
        | none ↦ elim later [ none ↦ none | some (found, rest') ↦ some (found, (q, bids) ∷ rest') ]
      ])
  OutOf-level q bids rest (some (found, bids')) later v h l =
      (h.0, h.1, (h.2, v.1), omega (arith, h.3))
  OutOf-level q bids rest none none v h l = tt
  OutOf-level q bids rest none (some (found, rest')) v h l =
      (l.0, l.1, (v.0, l.2), omega (arith, l.3))

  take_from_levels-OutOf :
      (levels : List Level)
      → AllBids Q levels
      → OutOf (sum_of f levels) (take_from_levels who key levels)
  unfolding take_from_levels
  take_from_levels-OutOf [] v = tt
  take_from_levels-OutOf ((q, bids) ∷ rest) v =
      OutOf-level q bids rest (take_from_level who key bids) (take_from_levels who key rest) v
        (take_from_level-Out bids v.0) (take_from_levels-OutOf rest v.1)

  pub remove-Removed : (l : PriceLadder) → AllBids Q l.levels → Removed l (remove l who key)
  unfolding remove
  remove-Removed l v = elim (Option-cases (take_from_levels who key l.levels)) [
    | inl e ↦ rw (e, remove) refl
    | inr ((found, left), e) ↦
        let (mine, good, kept, sums) =
          subst (OutOf (sum_of f l.levels)) e (take_from_levels-OutOf l.levels v) in
        rw (e, remove)
          (
            mine,
            good,
            prune-All (λ (l : Level). All Q l.1) left kept,
            omega (arith, sums, sum-prune f left),
          )
  ]
