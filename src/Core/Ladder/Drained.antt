-- ===== src/Core/Ladder/Drained.antt =====
-- crates/auction-core/src/ladder.rs, `drain_triggered`: which bids leave the ladder, and in what order.
use mathlib.Core.List.{append-nil}
use dutch_auction.Base.{
  ◌≡◌, refl, sym, ◌∙◌, ap, subst, arith, false, List, [], ◌∷◌, ◌++◌, All, All-append, All-mono,
  All-back, Bool-cases, inl, inr, if◌then◌else◌,
}
use dutch_auction.Base.Int.{◌≤ℤ◌, ◌<ℤ◌, eq_ℤ}
use dutch_auction.Proto.Money.{Price}
use dutch_auction.Core.Ladder.{
  RestingBid, Level, PriceLadder, levels_below, levels_from, highest_first, drain_triggered,
}
use dutch_auction.Core.Ladder.Drain.{IsAscending, split_levels, below_price, from_price}
use dutch_auction.Core.Ladder.Order.{IsLevel, IsOrdered}
use dutch_auction.Core.Ladder.Sums.{AllBids, All-highest_first}

-- No bid has a higher limit than one before it.
abbrev pub Falls : List RestingBid → Type 0
Falls [] = Unit
Falls (b ∷ bids) = All (λ (c : RestingBid). c.limit ≤ℤ b.limit) bids × Falls bids

-- The bids with this limit, in their order.
abbrev pub at_limit : Price → List RestingBid → List RestingBid
at_limit q [] = []
at_limit q (b ∷ bids) = if eq_ℤ b.limit q then b ∷ at_limit q bids else at_limit q bids

-- The bids of the levels as they stand there.
abbrev pub bids_of : List Level → List RestingBid
bids_of [] = []
bids_of (l ∷ levels) = l.1 ++ bids_of levels

-- What holds of the prices of levels holds of the limits on them.
pub limits_of :
    (P : Price → Type 0) (levels : List Level)
    → All (λ (l : Level). P l.0) levels
    → All IsLevel levels
    → AllBids (λ (b : RestingBid). P b.limit) levels
limits_of P [] h v = tt
limits_of P ((q, bids) ∷ levels) (h, hs) (v, vs) = (
  All-mono (λ (b : RestingBid). b.limit ≡ q) (λ (b : RestingBid). P b.limit) bids
      (λ b e. subst P (sym e) h) v.1,
  limits_of P levels hs vs,
)

All-bids_of :
    (Q : RestingBid → Type 0) (levels : List Level) → AllBids Q levels → All Q (bids_of levels)
All-bids_of Q [] v = tt
All-bids_of Q (l ∷ levels) (v, vs) = All-append Q l.1 (bids_of levels) v (All-bids_of Q levels vs)

IsAscending-back : (front back : List Level) → IsAscending (front ++ back) → IsAscending back
IsAscending-back [] back v = v
IsAscending-back (l ∷ front) back v = IsAscending-back front back v.1

Falls-level :
    (q : Price) (bids : List RestingBid) → All (λ (b : RestingBid). b.limit ≡ q) bids → Falls bids
Falls-level q [] v = tt
Falls-level q (b ∷ bids) (e, v) = (
  All-mono (λ (c : RestingBid). c.limit ≡ q) (λ (c : RestingBid). c.limit ≤ℤ b.limit) bids
      (λ c d. rw (d, e) (omega arith)) v,
  Falls-level q bids v,
)

Falls-append :
    (q : Price) (front back : List RestingBid)
    → Falls front
    → All (λ (b : RestingBid). q <ℤ b.limit) front
    → All (λ (b : RestingBid). b.limit ≡ q) back
    → Falls (front ++ back)
Falls-append q [] back f above v = Falls-level q back v
Falls-append q (b ∷ front) back (low, f) (h, above) v = (
  All-append (λ (c : RestingBid). c.limit ≤ℤ b.limit) front back low
      (All-mono (λ (c : RestingBid). c.limit ≡ q) (λ (c : RestingBid). c.limit ≤ℤ b.limit) back
        (λ c d. rw d (omega arith)) v),
  Falls-append q front back f above v,
)

at_limit-append :
    (q : Price) (front back : List RestingBid)
    → at_limit q (front ++ back) ≡ at_limit q front ++ at_limit q back
at_limit-append q [] back = refl
at_limit-append q (b ∷ front) back = elim (Bool-cases (eq_ℤ b.limit q)) [
  | inl e ↦ rw e (ap (λ l. b ∷ l) (at_limit-append q front back))
  | inr e ↦ rw e (at_limit-append q front back)
]

at_limit-none :
    (q : Price) (bids : List RestingBid)
    → All (λ (b : RestingBid). eq_ℤ b.limit q ≡ false) bids
    → at_limit q bids ≡ []
at_limit-none q [] v = refl
at_limit-none q (b ∷ bids) (e, v) = rw e (at_limit-none q bids v)

highest_first-Falls :
    (levels : List Level) → IsAscending levels → All IsLevel levels → Falls (highest_first levels)
unfolding highest_first
highest_first-Falls [] up v = tt
highest_first-Falls ((q, bids) ∷ levels) (above, up) (v, vs) =
    Falls-append q (highest_first levels) bids (highest_first-Falls levels up vs)
      (All-highest_first (λ (b : RestingBid). q <ℤ b.limit) levels
        (limits_of (λ (p : Price). q <ℤ p) levels above vs))
      v.1

-- Of the bids of a level and those above it, one part has no bid with a given limit.
swapped :
    (q limit : Price) (bids higher : List RestingBid)
    → All (λ (b : RestingBid). b.limit ≡ q) bids
    → All (λ (b : RestingBid). q <ℤ b.limit) higher
    → at_limit limit higher ++ at_limit limit bids ≡ at_limit limit bids ++ at_limit limit higher
swapped q limit bids higher own above = elim (Bool-cases (eq_ℤ q limit)) [
  | inl e ↦
      let none_higher : at_limit limit higher ≡ [] = at_limit-none limit higher (
        All-mono (λ (b : RestingBid). q <ℤ b.limit) (λ (b : RestingBid). eq_ℤ b.limit limit ≡ false)
          higher (λ b lt. ground arith) above) in
      rw none_higher (sym (append-nil (at_limit limit bids)))
  | inr e ↦
      let none_here : at_limit limit bids ≡ [] = at_limit-none limit bids (
        All-mono (λ (b : RestingBid). b.limit ≡ q) (λ (b : RestingBid). eq_ℤ b.limit limit ≡ false)
          bids (λ b d. rw d e) own) in
      rw none_here (append-nil (at_limit limit higher))
]

at_limit-highest_first :
    (limit : Price) (levels : List Level)
    → IsAscending levels
    → All IsLevel levels
    → at_limit limit (highest_first levels) ≡ at_limit limit (bids_of levels)
unfolding highest_first
at_limit-highest_first limit [] up v = refl
at_limit-highest_first limit ((q, bids) ∷ levels) (above, up) (v, vs) =
    at_limit-append limit (highest_first levels) bids
    ∙ ap (λ l. l ++ at_limit limit bids) (at_limit-highest_first limit levels up vs)
    ∙ swapped q limit bids (bids_of levels) v.1 (
        All-bids_of (λ (b : RestingBid). q <ℤ b.limit) levels
          (limits_of (λ (p : Price). q <ℤ p) levels above vs))
    ∙ sym (at_limit-append limit bids (bids_of levels))

-- On a ladder in order, draining at a price splits the levels in two: those below the price stay, those at
-- or above it leave, and no level is lost. In what is returned no bid has a higher limit than one
-- before it, and the bids of each limit are those of the levels that leave, in the order in which they
-- stand there.
pub drain_triggered_splits :
    (l : PriceLadder) (p : Price)
    → IsOrdered l
    → (taken : List Level) × ((drain_triggered l p).1.levels ++ taken ≡ l.levels)
      × All (λ (level : Level). level.0 <ℤ p) (drain_triggered l p).1.levels
      × All (λ (level : Level). p ≤ℤ level.0) taken
      × Falls (drain_triggered l p).0
      × ((limit : Price) → at_limit limit (drain_triggered l p).0 ≡ at_limit limit (bids_of taken))
unfolding drain_triggered
drain_triggered_splits l p v =
    let taken : List Level = levels_from p l.levels in
    let parts : levels_below p l.levels ++ taken ≡ l.levels = split_levels p l.levels in
    let up : IsAscending taken =
      IsAscending-back (levels_below p l.levels) taken
        (subst IsAscending (sym parts) v.ascending) in
    let own : All IsLevel taken =
      All-back IsLevel (levels_below p l.levels) taken
        (subst (All IsLevel) (sym parts) v.own_level) in
    (
      taken,
      parts,
      below_price p l.levels,
      from_price p l.levels v.ascending,
      highest_first-Falls taken up own,
      λ limit. at_limit-highest_first limit taken up own,
    )
