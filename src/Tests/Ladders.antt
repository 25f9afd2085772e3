-- ===== src/Tests/Ladders.antt =====
-- crates/auction-core/src/ladder.rs: a ladder of two limits.
use dutch_auction.Base.{ℕ, ◌≡◌, refl, arith, List, [], ◌∷◌, ◌++◌, All, map}
use dutch_auction.Base.Int.{pos, ◌≤ℤ◌, ◌<ℤ◌}
use dutch_auction.Core.Ladder.{
  RestingBid, Level, PriceLadder, insert_bid, new_ladder, drain_triggered, update_level,
}
use dutch_auction.Proto.Money.{Price}
use dutch_auction.Core.Ladder.Order.{IsOrdered}
use dutch_auction.Core.Ladder.Drained.{Falls, at_limit, bids_of, drain_triggered_splits}

abbrev at : ℕ → ℕ → RestingBid
at seq limit = record { seq = seq; participant = seq; key = seq; qty = 2; limit = pos limit }

-- Two bids at 500, and one at 400.
abbrev ladder : PriceLadder
ladder = record {
  levels = (pos 400, at 3 400 ∷ []) ∷ (pos 500, at 1 500 ∷ at 2 500 ∷ []) ∷ [];
  total_qty = 6;
}

built : insert_bid (insert_bid (insert_bid new_ladder (at 1 500)) (at 2 500)) (at 3 400) ≡ ladder
unfolding insert_bid new_ladder update_level
built = refl

two_drained : map (λ (b : RestingBid). b.seq) (drain_triggered ladder (pos 450)).0 ≡ 1 ∷ 2 ∷ []
unfolding drain_triggered
two_drained = refl

ladder-IsOrdered : IsOrdered ladder
ladder-IsOrdered = record {
  ascending = ((omega arith, tt), (tt, tt));
  own_level = ((tt, (refl, tt)), ((tt, (refl, (refl, tt))), tt));
  within = omega arith;
}

drain_triggered_splits_example :
    (taken : List Level) × ((drain_triggered ladder (pos 350)).1.levels ++ taken ≡ ladder.levels)
    × All (λ (level : Level). level.0 <ℤ pos 350) (drain_triggered ladder (pos 350)).1.levels
    × All (λ (level : Level). pos 350 ≤ℤ level.0) taken
    × Falls (drain_triggered ladder (pos 350)).0
    × ((limit : Price)
        → at_limit limit (drain_triggered ladder (pos 350)).0 ≡ at_limit limit (bids_of taken))
drain_triggered_splits_example = drain_triggered_splits ladder (pos 350) ladder-IsOrdered
