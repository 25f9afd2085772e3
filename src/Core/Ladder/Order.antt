-- ===== src/Core/Ladder/Order.antt =====
-- crates/auction-core/src/ladder.rs: every operation keeps the levels in order, each bid on the level
-- of its limit, no level empty, and the cached quantity within what rests.
use dutch_auction.Base.{
  ℕ, ◌+◌, ◌-◌, ◌≤◌, ◌≡◌, refl, subst, arith, List, [], ◌∷◌, ◌++◌, All, All-append, All-front,
  All-mono, if_cases, total_of, total_of-append,
}
use dutch_auction.Base.Int.{◌<ℤ◌, ltb_ℤ, eq_ℤ, eq_of_parts}
use dutch_auction.Proto.Money.{Price, is_zero, saturating_add_qty, saturating_sub_qty}
use dutch_auction.Core.Ladder.{
  RestingBid, Level, PriceLadder, update_level, push_back, push_front, insert_bid, requeue,
  levels_below, levels_from, highest_first, subtract_all, drain_triggered,
}
use dutch_auction.Core.Ladder.Drain.{IsAscending, split_levels}

abbrev pub units_of : List RestingBid → ℕ
units_of = total_of (λ (b : RestingBid). b.qty)

-- The units on the levels.
abbrev pub resting_units : List Level → ℕ
resting_units = total_of (λ (l : Level). units_of l.1)

abbrev pub IsFilled : List RestingBid → Type 0
IsFilled [] = ⊥
IsFilled (b ∷ bids) = Unit

-- A level has bids, and all of them name its price.
abbrev pub IsLevel : Level → Type 0
IsLevel l = IsFilled l.1 × All (λ (b : RestingBid). b.limit ≡ l.0) l.1

pub record IsOrdered (l : PriceLadder) : Type 0 where
  pub ascending : IsAscending l.levels
  pub own_level : All IsLevel l.levels
  pub within : l.total_qty ≤ resting_units l.levels

-- An update of one level by a function that adds the bid at its price.
module _ (b : RestingBid) (f : List RestingBid → List RestingBid)
    (filled : (bids : List RestingBid) → IsFilled (f bids))
    (named : (bids : List RestingBid)
      → All (λ (c : RestingBid). c.limit ≡ b.limit) bids
      → All (λ (c : RestingBid). c.limit ≡ b.limit) (f bids))
    (counted : (bids : List RestingBid) → units_of (f bids) ≡ b.qty + units_of bids) where
  update_level-All :
      (P : Level → Type 0) (levels : List Level)
      → ((bids : List RestingBid) → P (b.limit, f bids))
      → All P levels
      → All P (update_level b.limit f levels)
  unfolding update_level
  update_level-All P [] h v = (h [], tt)
  update_level-All P ((q, bids) ∷ rest) h v =
      if_cases (All P) (eq_ℤ q b.limit) _ _ (λ _. (h bids, v.1))
        λ _.
          if_cases (All P) (ltb_ℤ b.limit q) _ _ (λ _. (h [], v))
            (λ _. (v.0, update_level-All P rest h v.1))

  update_level-IsAscending :
      (levels : List Level) → IsAscending levels → IsAscending (update_level b.limit f levels)
  unfolding update_level
  update_level-IsAscending [] v = (tt, tt)
  update_level-IsAscending ((q, bids) ∷ rest) v =
      if_cases IsAscending (eq_ℤ q b.limit) _ _
        (λ e. let same : b.limit ≡ q = eq_of_parts b.limit q (ground arith) in (rw same v.0, v.1))
        λ differs.
          if_cases IsAscending (ltb_ℤ b.limit q) _ _
            (λ e.
              let lt : b.limit <ℤ q = ground arith in
              (
                (
                  lt,
                  All-mono (λ (l : Level). q <ℤ l.0) (λ (l : Level). b.limit <ℤ l.0) rest
                      (λ l h. omega arith) v.0,
                ),
                v,
              ))
            (λ e.
              let lt : q <ℤ b.limit = ground arith in
              (
                update_level-All (λ (l : Level). q <ℤ l.0) rest (λ _. lt) v.0,
                update_level-IsAscending rest v.1,
              ))

  update_level-IsLevel :
      (levels : List Level) → All IsLevel levels → All IsLevel (update_level b.limit f levels)
  unfolding update_level
  update_level-IsLevel [] v = ((filled [], named [] tt), tt)
  update_level-IsLevel ((q, bids) ∷ rest) v =
      if_cases (All IsLevel) (eq_ℤ q b.limit) _ _
        (λ e.
          let same : q ≡ b.limit = eq_of_parts q b.limit (ground arith) in
          (
            (
              filled bids,
              named bids
                  (subst (λ (p : Price). All (λ (c : RestingBid). c.limit ≡ p) bids) same v.0.1),
            ),
            v.1,
          ))
        λ _.
          if_cases (All IsLevel) (ltb_ℤ b.limit q) _ _ (λ _. ((filled [], named [] tt), v))
            (λ _. (v.0, update_level-IsLevel rest v.1))

  update_level-units :
      (levels : List Level)
      → resting_units (update_level b.limit f levels) ≡ b.qty + resting_units levels
  unfolding update_level
  update_level-units [] = omega (arith, counted [])
  update_level-units ((q, bids) ∷ rest) =
      if_cases (λ (r : List Level). resting_units r ≡ b.qty + (units_of bids + resting_units rest))
        (eq_ℤ q b.limit) _ _ (λ _. omega (arith, counted bids))
        λ _.
          if_cases
            (λ (r : List Level). resting_units r ≡ b.qty + (units_of bids + resting_units rest))
            (ltb_ℤ b.limit q) _ _ (λ _. omega (arith, counted []))
            (λ _. omega (arith, update_level-units rest))

  update_level-IsOrdered :
      (l : PriceLadder)
      → IsOrdered l
      → IsOrdered (record {
        levels = update_level b.limit f l.levels;
        total_qty = saturating_add_qty l.total_qty b.qty;
      })
  unfolding saturating_add_qty
  update_level-IsOrdered l v = record {
    ascending = update_level-IsAscending l.levels v.ascending;
    own_level = update_level-IsLevel l.levels v.own_level;
    within = omega (arith, update_level-units l.levels, v.within);
  }

IsFilled-append : (bids : List RestingBid) (b : RestingBid) → IsFilled (bids ++ b ∷ [])
IsFilled-append [] b = tt
IsFilled-append (c ∷ bids) b = tt

pub insert_bid-IsOrdered :
    (l : PriceLadder) (b : RestingBid) → IsOrdered l → IsOrdered (insert_bid l b)
unfolding insert_bid push_back
insert_bid-IsOrdered l b =
    update_level-IsOrdered b (push_back b) (λ bids. IsFilled-append bids b)
      (λ bids v. All-append (λ (c : RestingBid). c.limit ≡ b.limit) bids (b ∷ []) v (refl, tt))
      (λ bids. omega (arith, total_of-append (λ (c : RestingBid). c.qty) bids (b ∷ []))) l

pub requeue-IsOrdered : (l : PriceLadder) (b : RestingBid) → IsOrdered l → IsOrdered (requeue l b)
unfolding requeue push_front
requeue-IsOrdered l b v =
    if_cases IsOrdered (is_zero b.qty) _ _ (λ _. v)
      (λ _.
        update_level-IsOrdered b (push_front b) (λ _. tt) (λ bids w. (refl, w)) (λ bids. refl) l v)

pub empty-IsOrdered : IsOrdered (record { levels = []; total_qty = 0 })
empty-IsOrdered = record { ascending = tt; own_level = tt; within = omega arith }

-- The lower part of an ascending list of levels ascends.
front-IsAscending : (front back : List Level) → IsAscending (front ++ back) → IsAscending front
front-IsAscending [] back v = tt
front-IsAscending (l ∷ front) back v =
    (All-front (λ (m : Level). l.0 <ℤ m.0) front back v.0, front-IsAscending front back v.1)

units-highest_first : (levels : List Level) → units_of (highest_first levels) ≡ resting_units levels
unfolding highest_first
units-highest_first [] = refl
units-highest_first ((p, bids) ∷ rest) = omega (
  arith,
  total_of-append (λ (c : RestingBid). c.qty) (highest_first rest) bids,
  units-highest_first rest,
)

subtract_all_lem : (bids : List RestingBid) (n : ℕ) → subtract_all bids n ≡ n - units_of bids
unfolding subtract_all saturating_sub_qty
subtract_all_lem [] n = omega arith
subtract_all_lem (b ∷ bids) n = omega (arith, subtract_all_lem bids (n - b.qty))

pub drain_triggered-IsOrdered :
    (l : PriceLadder) (p : Price) → IsOrdered l → IsOrdered (drain_triggered l p).1
unfolding drain_triggered
drain_triggered-IsOrdered l p v =
    let whole = split_levels p l.levels in
    let sums =
      total_of-append (λ (m : Level). units_of m.1) (levels_below p l.levels)
        (levels_from p l.levels) in
    let total : resting_units (levels_below p l.levels ++ levels_from p l.levels)
        ≡ resting_units l.levels =
      rw whole refl in
    record {
      ascending =
          front-IsAscending (levels_below p l.levels) (levels_from p l.levels)
            (rw whole v.ascending);
      own_level =
          All-front IsLevel (levels_below p l.levels) (levels_from p l.levels)
            (rw whole v.own_level);
      within = omega (
        arith,
        v.within,
        sums,
        total,
        subtract_all_lem (highest_first (levels_from p l.levels)) l.total_qty,
        units-highest_first (levels_from p l.levels),
      );
    }
