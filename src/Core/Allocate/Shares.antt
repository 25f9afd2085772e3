-- ===== src/Core/Allocate/Shares.antt =====
-- crates/auction-core/src/state.rs, `allocate`: what flooring leaves over, and where it can go.
use native.Mathlib.Nat.{
  mul-le-mul_right, div-mul-le_self, lt-div-mul-add, div-le_of_le-mul, mul-le-mul_left,
  mul-lt-mul_of_pos_left, mul_comm, mod-eq_of_lt,
}
use dutch_auction.Base.{
  ℕ, ◌+◌, ◌*◌, ◌/◌, ◌^◌, ◌≤◌, ◌<◌, ◌≡◌, refl, arith, List, [], ◌∷◌, All, ltb, ◌==◌, if◌then◌else◌,
  sum, div_lt, Bool-cases, inl, inr, false, map,
}
use dutch_auction.Base.Word.{u64_max}
use dutch_auction.Core.Bid.{PendingBid}
use dutch_auction.Core.Allocate.{demand_of, shares}

abbrev pub quota : ℕ → ℕ → PendingBid → ℕ
quota r d b = r * b.qty / d

pub quota-lt : (r d q : ℕ) → r < d → 0 < q → r * q / d < q
quota-lt r d q h k =
    div_lt q (r * q) d (omega arith) (rw (mul_comm r q) (mul-lt-mul_of_pos_left h k))

quota-le : (r d q : ℕ) → r < d → q ≤ d → r * q / d ≤ r
quota-le r d q h k = div-le_of_le-mul d (omega (arith, mul-le-mul_left r k))

-- One bid: its share is at most what is due to it, and falls short by less than a unit, and by nothing
-- where it has no room for one more.
quota_parts :
    (r d : ℕ) (b : PendingBid)
    → r < d
    → (quota r d b * d ≤ r * b.qty)
      × (r * b.qty ≤ quota r d b * d + (if ltb (quota r d b) b.qty then 1 else 0) * d)
quota_parts r d b h = (
  div-mul-le_self (r * b.qty) d,
  elim (Bool-cases (ltb (quota r d b) b.qty)) [
    | inl e ↦ rw e (omega (arith, lt-div-mul-add {a = r * b.qty} {b = d} (omega arith)))
    | inr e ↦ rw e (let z : b.qty ≡ 0 = none_wanted e in rw z (omega arith))
  ],
)
  where
    none_wanted : ltb (quota r d b) b.qty ≡ false → b.qty ≡ 0
    none_wanted e = elim (Bool-cases (b.qty == 0)) [
      | inl z ↦ ground arith
      | inr p ↦ absurd (ground (arith, quota-lt r d b.qty h (ground arith)))
    ]

-- A share of a contested level is never more than the request.
pub quota-le-qty : (r d : ℕ) (b : PendingBid) → r < d → quota r d b ≤ b.qty
quota-le-qty r d b h = div-le_of_le-mul d (omega (arith, mul-le-mul_right b.qty (lt_to_le h)))
  where
    lt_to_le : r < d → r ≤ d
    lt_to_le lt = omega arith

-- The number of bids whose allocation is below their request.
abbrev pub room : List ℕ → List PendingBid → ℕ
room (a ∷ alloc) (b ∷ level) = (if ltb a b.qty then 1 else 0) + room alloc level
room _ _ = 0

-- No share overflows a u64, so the cast changes nothing.
pub shares-eq :
    (r d : ℕ) (level : List PendingBid)
    → r < d
    → r ≤ u64_max
    → All (λ b. b.qty ≤ d) level
    → shares r d level ≡ map (quota r d) level
unfolding shares
shares-eq r d [] h k a = refl
shares-eq r d (b ∷ level) h k a = rw (
  shares-eq r d level h k a.1,
  mod-eq_of_lt {n = r * b.qty / d} {m = 2 ^ 64} (omega (arith, quota-le r d b.qty h a.0)),
)

-- The shares never exceed what is there, and what they leave is at most one unit for each bid with room.
pub sum-quota :
    (r d : ℕ) (level : List PendingBid)
    → r < d
    → (sum (map (quota r d) level) * d ≤ r * demand_of level)
      × (r * demand_of level
          ≤ (sum (map (quota r d) level) + room (map (quota r d) level) level) * d)
unfolding demand_of
sum-quota r d [] h = (omega arith, omega arith)
sum-quota r d (b ∷ level) h =
    let (low, high) = quota_parts r d b h in
    let (below, above) = sum-quota r d level h in (omega arith, omega arith)
