-- ===== src/Core/Matching/Asked.antt =====
-- crates/auction-core/src/state.rs, `flush_window`: no bid of a window gets more than it asked for, and
-- sorting keeps the bids.
use dutch_auction.Base.{
  ℕ, zero, suc, ◌+◌, ◌≤◌, ◌<◌, ◌≡◌, refl, subst, arith, List, [], ◌∷◌, ◌++◌, Bool, All, length,
  if_cases, Bool-cases, inl, inr, leb, total_of,
}
use dutch_auction.Base.Word.{u64_max}
use dutch_auction.Proto.Money.{Qty, is_zero}
use dutch_auction.Core.Bid.{PendingBid}
use dutch_auction.Core.Allocate.{allocate, qtys, demand_of}
use dutch_auction.Core.Allocate.Total.{IsProRata, allocate-IsProRata}
use dutch_auction.Core.Matching.{
  comes_before, place, sort_bids, split_level, Matched, zeros, match_level, match_levels,
  match_window,
}
use dutch_auction.Core.Matching.Levels.{
  split_level-append, match_level-Accounts, length-match_level,
}
use dutch_auction.Core.Matching.Priority.{place-All}

-- No bid gets more than it asked for.
abbrev pub AtMostAsked : List PendingBid → List ℕ → Type 0
AtMostAsked [] allocs = Unit
AtMostAsked (b ∷ bids) [] = Unit
AtMostAsked (b ∷ bids) (a ∷ allocs) = (a ≤ b.qty) × AtMostAsked bids allocs

AtMostAsked-append :
    (level rest : List PendingBid) (here later : List ℕ)
    → length here ≡ length level
    → AtMostAsked level here
    → AtMostAsked rest later
    → AtMostAsked (level ++ rest) (here ++ later)
AtMostAsked-append [] rest [] later e v w = w
AtMostAsked-append [] rest (a ∷ here) later e v w = absurd (omega (arith, e))
AtMostAsked-append (b ∷ level) rest [] later e v w = absurd (omega (arith, e))
AtMostAsked-append (b ∷ level) rest (a ∷ here) later e v w =
    (v.0, AtMostAsked-append level rest here later (omega (arith, e)) v.1 w)

AtMostAsked-zeros : (level : List PendingBid) → AtMostAsked level (zeros level)
AtMostAsked-zeros [] = tt
AtMostAsked-zeros (b ∷ level) = (omega arith, AtMostAsked-zeros level)

AtMostAsked-qtys : (level : List PendingBid) → AtMostAsked level (qtys level)
AtMostAsked-qtys [] = tt
AtMostAsked-qtys (b ∷ level) = (omega arith, AtMostAsked-qtys level)

AtMostAsked-IsProRata :
    (r d : ℕ) (level : List PendingBid) (allocs : List ℕ)
    → IsProRata r d level allocs
    → AtMostAsked level allocs
AtMostAsked-IsProRata r d [] allocs v = tt
AtMostAsked-IsProRata r d (b ∷ level) [] v = tt
AtMostAsked-IsProRata r d (b ∷ level) (a ∷ allocs) v =
    (v.2, AtMostAsked-IsProRata r d level allocs v.3)

allocate-AtMostAsked :
    (level : List PendingBid) (supply : Qty)
    → supply ≤ u64_max
    → AtMostAsked level (allocate level supply)
unfolding allocate
allocate-AtMostAsked level supply small = elim (Bool-cases (leb (demand_of level) supply)) [
  | inl fits ↦ rw fits (AtMostAsked-qtys level)
  | inr short ↦
      let lt : supply < demand_of level = ground arith in
      AtMostAsked-IsProRata supply (demand_of level) level (allocate level supply)
        (allocate-IsProRata level supply small lt)
]

match_level-AtMostAsked :
    (level : List PendingBid) (supply : Qty) (ex : Bool)
    → supply ≤ u64_max
    → AtMostAsked level (match_level level supply ex).allocs
unfolding match_level
match_level-AtMostAsked level supply ex small =
    if_cases (λ (m : Matched). AtMostAsked level m.allocs) (is_zero supply) _ _
      (λ _. AtMostAsked-zeros level) (λ _. allocate-AtMostAsked level supply small)

match_levels-AtMostAsked :
    (fuel : ℕ) (bids : List PendingBid) (supply : Qty) (ex : Bool)
    → supply ≤ u64_max
    → AtMostAsked bids (match_levels fuel bids supply ex).allocs
unfolding match_levels
match_levels-AtMostAsked zero [] supply ex small = tt
match_levels-AtMostAsked zero (b ∷ bids) supply ex small = tt
match_levels-AtMostAsked (suc fuel) [] supply ex small = tt
match_levels-AtMostAsked (suc fuel) (b ∷ bids) supply ex small =
    let (level, rest) = split_level b.priority (b ∷ bids) in
    let here : Matched = match_level level supply ex in
    let later : Matched = match_levels fuel rest here.supply here.exhausted in
    let left = (match_level-Accounts level supply ex small).conserved in
    subst (λ (l : List PendingBid). AtMostAsked l (here.allocs ++ later.allocs))
      (split_level-append b.priority (b ∷ bids))
      (AtMostAsked-append level rest here.allocs later.allocs (length-match_level level supply ex)
        (match_level-AtMostAsked level supply ex small)
        (match_levels-AtMostAsked fuel rest here.supply here.exhausted (omega arith)))

pub match_window-AtMostAsked :
    (bids : List PendingBid) (supply : Qty)
    → supply ≤ u64_max
    → AtMostAsked bids (match_window bids supply).allocs
unfolding match_window
match_window-AtMostAsked bids supply small =
    match_levels-AtMostAsked (length bids) bids supply _ small

total-place :
    (f : PendingBid → ℕ) (b : PendingBid) (bids : List PendingBid)
    → total_of f (place b bids) ≡ f b + total_of f bids
unfolding place
total-place f b [] = refl
total-place f b (c ∷ bids) =
    if_cases (λ (l : List PendingBid). total_of f l ≡ f b + (f c + total_of f bids))
      (comes_before c b) _ _ (λ _. omega (arith, total-place f b bids)) (λ _. refl)

pub total-sort_bids :
    (f : PendingBid → ℕ) (bids : List PendingBid) → total_of f (sort_bids bids) ≡ total_of f bids
unfolding sort_bids
total-sort_bids f [] = refl
total-sort_bids f (b ∷ bids) =
    omega (arith, total-place f b (sort_bids bids), total-sort_bids f bids)

pub All-sort_bids :
    (P : PendingBid → Type 0) (bids : List PendingBid) → All P bids → All P (sort_bids bids)
unfolding sort_bids
All-sort_bids P [] v = tt
All-sort_bids P (b ∷ bids) v = place-All P b (sort_bids bids) v.0 (All-sort_bids P bids v.1)
