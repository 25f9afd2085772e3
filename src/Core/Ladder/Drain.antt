-- ===== src/Core/Ladder/Drain.antt =====
-- crates/auction-core/src/ladder.rs, `drain_triggered`: which levels leave the ladder.
use dutch_auction.Base.{
  ◌≡◌, refl, ap, arith, List, [], ◌∷◌, ◌++◌, All, All-mono, Bool-cases, inl, inr,
}
use dutch_auction.Base.Int.{◌≤ℤ◌, ◌<ℤ◌, ltb_ℤ}
use dutch_auction.Proto.Money.{Price}
use dutch_auction.Core.Ladder.{Level, levels_below, levels_from}

-- The keys of the map ascend.
abbrev pub IsAscending : List Level → Type 0
IsAscending [] = Unit
IsAscending (level ∷ rest) = All (λ (l : Level). level.0 <ℤ l.0) rest × IsAscending rest

pub split_levels :
    (p : Price) (levels : List Level) → levels_below p levels ++ levels_from p levels ≡ levels
unfolding levels_below levels_from
split_levels p [] = refl
split_levels p ((q, bids) ∷ rest) = elim (Bool-cases (ltb_ℤ q p)) [
  | inl e ↦ rw e (ap (λ l. (q, bids) ∷ l) (split_levels p rest))
  | inr e ↦ rw e refl
]

pub below_price :
    (p : Price) (levels : List Level) → All (λ (l : Level). l.0 <ℤ p) (levels_below p levels)
unfolding levels_below
below_price p [] = tt
below_price p ((q, bids) ∷ rest) = elim (Bool-cases (ltb_ℤ q p)) [
  | inl e ↦ rw e (let lt : q <ℤ p = ground arith in (lt, below_price p rest))
  | inr e ↦ rw e tt
]

pub from_price :
    (p : Price) (levels : List Level)
    → IsAscending levels
    → All (λ (l : Level). p ≤ℤ l.0) (levels_from p levels)
unfolding levels_from
from_price p [] h = tt
from_price p ((q, bids) ∷ rest) (above, h) = elim (Bool-cases (ltb_ℤ q p)) [
  | inl e ↦ rw e (from_price p rest h)
  | inr e ↦ rw e (
      let le : p ≤ℤ q = ground arith in
      (
        le,
        All-mono (λ (l : Level). q <ℤ l.0) (λ (l : Level). p ≤ℤ l.0) rest (λ l lt. omega arith)
            above,
      ))
]
