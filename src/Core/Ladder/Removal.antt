-- ===== src/Core/Ladder/Removal.antt =====
-- crates/auction-core/src/ladder.rs, `remove`: the order of the levels when a bid is withdrawn.
use dutch_auction.Base.{
  ℕ, ◌+◌, ◌≡◌, refl, subst, arith, List, [], ◌∷◌, Option, some, none, All, All-mono, Option-cases,
  inl, inr, if_cases,
}
use dutch_auction.Base.Int.{◌<ℤ◌}
use dutch_auction.Proto.Ids.{ParticipantId, IdempotencyKey}
use dutch_auction.Proto.Money.{Price, saturating_sub_qty}
use dutch_auction.Core.Ladder.{
  RestingBid, Level, PriceLadder, is_bid_of, take_from_level, take_from_levels, prune, remove,
}
use dutch_auction.Core.Ladder.Drain.{IsAscending}
use dutch_auction.Core.Ladder.Sums.{prune-All, sum-prune}
use dutch_auction.Core.Ladder.Order.{units_of, resting_units, IsLevel, IsOrdered}

-- What is left of a level once a bid is taken out, with the units of the bid.
abbrev Taken : Price → ℕ → Option (RestingBid × List RestingBid) → Type 0
Taken p n none = Unit
Taken p n (some (found, rest)) =
    All (λ (c : RestingBid). c.limit ≡ p) rest × (found.qty + units_of rest ≡ n)

Taken-behind :
    (b : RestingBid) (p : Price) (n : ℕ) (r : Option (RestingBid × List RestingBid))
    → b.limit ≡ p
    → Taken p n r
    → Taken p (b.qty + n) (elim r [ none ↦ none | some (found, rest) ↦ some (found, b ∷ rest) ])
Taken-behind b p n none e v = tt
Taken-behind b p n (some (found, rest)) e v = ((e, v.0), omega (arith, v.1))

take_from_level-Taken :
    (who : ParticipantId) (key : IdempotencyKey) (p : Price) (bids : List RestingBid)
    → All (λ (c : RestingBid). c.limit ≡ p) bids
    → Taken p (units_of bids) (take_from_level who key bids)
unfolding take_from_level
take_from_level-Taken who key p [] v = tt
take_from_level-Taken who key p (b ∷ bids) v =
    if_cases (Taken p (b.qty + units_of bids)) (is_bid_of who key b) _ _ (λ _. (v.1, refl))
      (λ _.
        Taken-behind b p (units_of bids) (take_from_level who key bids) v.0
          (take_from_level-Taken who key p bids v.1))

-- A level that may have become empty.
abbrev IsNamed : Level → Type 0
IsNamed l = All (λ (c : RestingBid). c.limit ≡ l.0) l.1

-- The same prices, in the same order.
abbrev SameKeys : List Level → List Level → Type 0
SameKeys [] [] = Unit
SameKeys [] (m ∷ right) = ⊥
SameKeys (l ∷ left) [] = ⊥
SameKeys (l ∷ left) (m ∷ right) = (l.0 ≡ m.0) × SameKeys left right

SameKeys-refl : (levels : List Level) → SameKeys levels levels
SameKeys-refl [] = tt
SameKeys-refl (l ∷ levels) = (refl, SameKeys-refl levels)

SameKeys-All :
    (P : Price → Type 0) (left right : List Level)
    → SameKeys left right
    → All (λ (l : Level). P l.0) left
    → All (λ (l : Level). P l.0) right
SameKeys-All P [] [] e v = tt
SameKeys-All P [] (m ∷ right) e v = absurd e
SameKeys-All P (l ∷ left) [] e v = absurd e
SameKeys-All P (l ∷ left) (m ∷ right) e v = (subst P e.0 v.0, SameKeys-All P left right e.1 v.1)

SameKeys-IsAscending :
    (left right : List Level) → SameKeys left right → IsAscending left → IsAscending right
SameKeys-IsAscending [] [] e v = tt
SameKeys-IsAscending [] (m ∷ right) e v = absurd e
SameKeys-IsAscending (l ∷ left) [] e v = absurd e
SameKeys-IsAscending (l ∷ left) (m ∷ right) e v = (
  SameKeys-All (λ (q : Price). m.0 <ℤ q) left right e.1
      (subst (λ (p : Price). All (λ (n : Level). p <ℤ n.0) left) e.0 v.0),
  SameKeys-IsAscending left right e.1 v.1,
)

abbrev TakenFrom : List Level → Option (RestingBid × List Level) → Type 0
TakenFrom levels none = Unit
TakenFrom levels (some (found, left)) =
    SameKeys levels left
    × All IsNamed left
    × (found.qty + resting_units left ≡ resting_units levels)

-- The level is searched first, and then those above it.
TakenFrom-level :
    (q : Price) (bids : List RestingBid) (rest : List Level)
    (here : Option (RestingBid × List RestingBid)) (later : Option (RestingBid × List Level))
    → All IsLevel ((q, bids) ∷ rest)
    → Taken q (units_of bids) here
    → TakenFrom rest later
    → TakenFrom ((q, bids) ∷ rest) (elim here [
      | some (found, bids') ↦ some (found, (q, bids') ∷ rest)
      | none ↦ elim later [ none ↦ none | some (found, rest') ↦ some (found, (q, bids) ∷ rest') ]
    ])
TakenFrom-level q bids rest (some (found, bids')) later v h l = (
  (refl, SameKeys-refl rest),
  (h.0, All-mono IsLevel IsNamed rest (λ m w. w.1) v.1),
  omega (arith, h.1),
)
TakenFrom-level q bids rest none none v h l = tt
TakenFrom-level q bids rest none (some (found, rest')) v h l =
    ((refl, l.0), (v.0.1, l.1), omega (arith, l.2))

take_from_levels-TakenFrom :
    (who : ParticipantId) (key : IdempotencyKey) (levels : List Level)
    → All IsLevel levels
    → TakenFrom levels (take_from_levels who key levels)
unfolding take_from_levels
take_from_levels-TakenFrom who key [] v = tt
take_from_levels-TakenFrom who key ((q, bids) ∷ rest) v =
    TakenFrom-level q bids rest (take_from_level who key bids) (take_from_levels who key rest) v
      (take_from_level-Taken who key q bids v.0.1) (take_from_levels-TakenFrom who key rest v.1)

prune-IsAscending : (levels : List Level) → IsAscending levels → IsAscending (prune levels)
unfolding prune
prune-IsAscending [] v = tt
prune-IsAscending ((p, []) ∷ rest) v = prune-IsAscending rest v.1
prune-IsAscending ((p, b ∷ bids) ∷ rest) v =
    (prune-All (λ (l : Level). p <ℤ l.0) rest v.0, prune-IsAscending rest v.1)

prune-IsLevel : (levels : List Level) → All IsNamed levels → All IsLevel (prune levels)
unfolding prune
prune-IsLevel [] v = tt
prune-IsLevel ((p, []) ∷ rest) v = prune-IsLevel rest v.1
prune-IsLevel ((p, b ∷ bids) ∷ rest) v = ((tt, v.0), prune-IsLevel rest v.1)

pub remove-IsOrdered :
    (l : PriceLadder) (who : ParticipantId) (key : IdempotencyKey)
    → IsOrdered l
    → IsOrdered (remove l who key).1
unfolding remove saturating_sub_qty
remove-IsOrdered l who key v = elim (Option-cases (take_from_levels who key l.levels)) [
  | inl e ↦ rw (e, remove) v
  | inr ((found, left), e) ↦
      let (keys, named, units) =
        subst (TakenFrom l.levels) e (take_from_levels-TakenFrom who key l.levels v.own_level) in
      rw (e, remove)
        (record {
          ascending = prune-IsAscending left (SameKeys-IsAscending l.levels left keys v.ascending);
          own_level = prune-IsLevel left named;
          within = omega (arith, v.within, units, sum-prune (λ (b : RestingBid). b.qty) left);
        })
]
