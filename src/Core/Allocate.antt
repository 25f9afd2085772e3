-- ===== src/Core/Allocate.antt =====
-- crates/auction-core/src/state.rs, `allocate`: the units of one price level.
pub mod Shares
pub mod Total
use dutch_auction.Base.{
  ℕ, ◌+◌, ◌-◌, ◌*◌, ◌/◌, List, [], ◌∷◌, map, ltb, leb, ◌==◌, if◌then◌else◌, sum, total_of,
}
use dutch_auction.Base.Word.{wrap_u64}
use dutch_auction.Core.Bid.{PendingBid}

abbrev pub qtys : List PendingBid → List ℕ
qtys = map (λ b. b.qty)

-- `level.iter().map(|b| u128::from(b.qty.0)).sum()`
unfoldable pub demand_of : List PendingBid → ℕ
demand_of level = total_of (λ b. b.qty) level

-- the floored share of each bid; the product is a u128, the quotient is cast to u64
unfoldable pub shares : ℕ → ℕ → List PendingBid → List ℕ
shares r demand [] = []
shares r demand (b ∷ level) = wrap_u64 (r * b.qty / demand) ∷ shares r demand level

-- the pass that hands out what flooring left over
unfoldable pub hand_out : ℕ → List ℕ → List PendingBid → List ℕ
hand_out left [] level = []
hand_out left (a ∷ alloc) [] = a ∷ alloc
hand_out left (a ∷ alloc) (b ∷ level) =
    let rest = hand_out left alloc level in
    let one_less = hand_out (left - 1) alloc level in
    if left == 0 then a ∷ alloc else if ltb a b.qty then (a + 1) ∷ one_less else a ∷ rest

unfoldable pub allocate : List PendingBid → ℕ → List ℕ
unfolding demand_of shares hand_out
allocate level remaining =
    let demand = demand_of level in
    let floored = shares remaining demand level in
    if leb demand remaining then qtys level else hand_out (remaining - sum floored) floored level
