-- ===== src/Core/Allocate/Total.antt =====
-- crates/auction-core/src/state.rs, `allocate`: a level gets as much as is there or as it wants, each
-- bid its request or its share, and the pass over the level places every unit that flooring left.
use native.Mathlib.Nat.{le_of_mul-le-mul_right}
use dutch_auction.Base.{
  ℕ, suc, ◌+◌, ◌-◌, ◌≤◌, ◌<◌, ◌≡◌, refl, ap, arith, List, [], ◌∷◌, All, leb→le, leb, sum,
  Bool-cases, inl, inr, length, map, min, false, length-map, if_cases, ◌∙◌,
}
use dutch_auction.Base.Word.{u64_max}
use dutch_auction.Core.Bid.{PendingBid}
use dutch_auction.Core.Allocate.{qtys, demand_of, shares, hand_out, allocate}
use dutch_auction.Core.Allocate.Shares.{quota, quota-le-qty, room, shares-eq, sum-quota}

pub sum-qtys : (level : List PendingBid) → sum (qtys level) ≡ demand_of level
unfolding demand_of
sum-qtys [] = refl
sum-qtys (b ∷ level) = omega (arith, sum-qtys level)

-- The pass places every unit, if there is room for it.
sum-hand_out :
    (left : ℕ) (alloc : List ℕ) (level : List PendingBid)
    → left ≤ room alloc level
    → sum (hand_out left alloc level) ≡ sum alloc + left
unfolding hand_out
sum-hand_out left [] level h = omega arith
sum-hand_out left (a ∷ alloc) [] h = omega arith
sum-hand_out left (a ∷ alloc) (b ∷ level) h =
    ground (arith, sum-hand_out left alloc level, sum-hand_out (left - 1) alloc level)

length-hand_out :
    (left : ℕ) (alloc : List ℕ) (level : List PendingBid)
    → length (hand_out left alloc level) ≡ length alloc
unfolding hand_out
length-hand_out left [] level = refl
length-hand_out left (a ∷ alloc) [] = refl
length-hand_out left (a ∷ alloc) (b ∷ level) =
    ground (arith, length-hand_out left alloc level, length-hand_out (left - 1) alloc level)

length-shares : (r d : ℕ) (level : List PendingBid) → length (shares r d level) ≡ length level
unfolding shares
length-shares r d [] = refl
length-shares r d (b ∷ level) = ap suc (length-shares r d level)

-- No bid wants more than the level does.
le-demand_of : (level : List PendingBid) (d : ℕ) → demand_of level ≤ d → All (λ b. b.qty ≤ d) level
unfolding demand_of
le-demand_of [] d h = tt
le-demand_of (b ∷ level) d h = (omega arith, le-demand_of level d (omega arith))

-- In a contested level the units that flooring leaves fit into the room.
left-le-room :
    (r : ℕ) (level : List PendingBid)
    → r < demand_of level
    → let floored = map (quota r (demand_of level)) level in
      (sum floored ≤ r) × (r - sum floored ≤ room floored level)
left-le-room r level h =
    let d : ℕ = demand_of level in
    let (below, above) = sum-quota r d level h in
    let low : sum (map (quota r d) level) ≤ r =
      le_of_mul-le-mul_right {k = d} below (omega arith) in
    let high : r ≤ sum (map (quota r d) level) + room (map (quota r d) level) level =
      le_of_mul-le-mul_right {k = d} above (omega arith) in
    (low, omega arith)

-- One allocation for each bid, whatever remains.
pub length-allocate :
    (level : List PendingBid) (remaining : ℕ) → length (allocate level remaining) ≡ length level
unfolding allocate
length-allocate level r =
    if_cases (λ (l : List ℕ). length l ≡ length level) (leb (demand_of level) r) _ _
      (λ _. length-map level (λ b. b.qty))
      (λ _.
        length-hand_out (r - sum (shares r (demand_of level) level))
          (shares r (demand_of level) level) level
        ∙ length-shares r (demand_of level) level)

-- For a number of remaining units that is a u64: the allocations of a level have one entry for each bid, and sum to the demand or to the remaining
-- units, whichever is less: nothing is oversold, and nothing is left over while a bid is short.
pub allocate_total :
    (level : List PendingBid) (remaining : ℕ)
    → remaining ≤ u64_max
    → (length (allocate level remaining) ≡ length level)
      × (sum (allocate level remaining) ≡ min (demand_of level) remaining)
unfolding allocate
allocate_total level r h = elim (Bool-cases (leb (demand_of level) r)) [
  | inl fits ↦ rw fits (
    length-map level (λ b. b.qty),
    omega (arith, sum-qtys level, leb→le (demand_of level) r fits),
  )
  | inr short ↦
      let lt : r < demand_of level = ground arith in
      let e =
        shares-eq r (demand_of level) level lt h
          (le-demand_of level (demand_of level) (omega arith)) in
      let (low, high) = left-le-room r level lt in
      rw (short, e)
        (
          rw
              (length-hand_out (r - sum (map (quota r (demand_of level)) level))
                (map (quota r (demand_of level)) level) level)
              (length-map level (quota r (demand_of level))),
          omega (arith, sum-hand_out _ _ level high),
        )
]

-- What a bid may get of a contested level: its share rounded down, or one unit more, and never more
-- than it asked for.
abbrev pub IsProRata : ℕ → ℕ → List PendingBid → List ℕ → Type 0
IsProRata r d [] [] = Unit
IsProRata r d (b ∷ level) (a ∷ alloc) =
    (quota r d b ≤ a) × (a ≤ quota r d b + 1) × (a ≤ b.qty) × IsProRata r d level alloc
IsProRata r d _ _ = ⊥

IsProRata-quota :
    (r d : ℕ) (level : List PendingBid) → r < d → IsProRata r d level (map (quota r d) level)
IsProRata-quota r d [] h = tt
IsProRata-quota r d (b ∷ level) h =
    (omega arith, omega arith, quota-le-qty r d b h, IsProRata-quota r d level h)

IsProRata-hand_out :
    (r d left : ℕ) (level : List PendingBid)
    → r < d
    → IsProRata r d level (hand_out left (map (quota r d) level) level)
unfolding hand_out
IsProRata-hand_out r d left [] h = tt
IsProRata-hand_out r d left (b ∷ level) h = ground (
  arith,
  IsProRata-hand_out r d left level h,
  IsProRata-hand_out r d (left - 1) level h,
  IsProRata-quota r d (b ∷ level) h,
)

-- When a level wants more than remains, and what remains is a u64, each bid gets its pro-rata share of the remaining units
-- rounded down or one unit more, and never more than it requested.
pub allocate-IsProRata :
    (level : List PendingBid) (remaining : ℕ)
    → remaining ≤ u64_max
    → remaining < demand_of level
    → IsProRata remaining (demand_of level) level (allocate level remaining)
unfolding allocate
allocate-IsProRata level r h lt =
    let short : leb (demand_of level) r ≡ false = ground arith in
    let e =
      shares-eq r (demand_of level) level lt h
        (le-demand_of level (demand_of level) (omega arith)) in
    rw (short, e)
      (IsProRata-hand_out r (demand_of level) (r - sum (map (quota r (demand_of level)) level))
        level lt)
