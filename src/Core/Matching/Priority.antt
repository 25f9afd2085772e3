-- ===== src/Core/Matching/Priority.antt =====
-- crates/auction-core/src/state.rs, `flush_window`: price priority among the bids of a window.
use dutch_auction.Base.{
  ℕ, zero, suc, ◌≤◌, ◌<◌, ◌≡◌, sym, ◌∙◌, subst, ap, arith, List, [], ◌∷◌, ◌++◌, Bool, true, false,
  sum, length, All, All-mono, ◌⊎◌, inl, inr, Bool-cases, if_cases, ◌==◌, leb, length-map,
}
use dutch_auction.Base.Int.{◌≤ℤ◌, ◌<ℤ◌, eq_ℤ}
use dutch_auction.Base.Word.{u64_max}
use dutch_auction.Proto.Money.{Price, Qty, is_zero, saturating_sub_qty}
use dutch_auction.Core.Bid.{PendingBid}
use dutch_auction.Core.Allocate.{allocate, qtys, demand_of}
use dutch_auction.Core.Allocate.Total.{allocate_total}
use dutch_auction.Core.Matching.{
  comes_before, place, sort_bids, split_level, Matched, zeros, match_level, match_levels,
  match_window,
}
use dutch_auction.Core.Matching.Levels.{
  split_level-append, match_level-Accounts, length-match_level,
}

-- `b` is one of the bids, and `m` is its allocation.
abbrev pub Awarded : PendingBid → ℕ → List PendingBid → List ℕ → Type 0
Awarded b m [] allocs = ⊥
Awarded b m (c ∷ bids) [] = ⊥
Awarded b m (c ∷ bids) (a ∷ allocs) = ((c ≡ b) × (a ≡ m)) ⊎ Awarded b m bids allocs

abbrev AtMost : Price → PendingBid → Type 0
AtMost p b = b.priority ≤ℤ p

abbrev Below : Price → PendingBid → Type 0
Below p b = b.priority <ℤ p

abbrev At : Price → PendingBid → Type 0
At p b = eq_ℤ b.priority p ≡ true

abbrev IsSorted : List PendingBid → Type 0
IsSorted [] = Unit
IsSorted (b ∷ bids) = All (AtMost b.priority) bids × IsSorted bids

before_above : (c b : PendingBid) → comes_before c b ≡ true → b.priority ≤ℤ c.priority
unfolding comes_before
before_above c b h = ground arith

not_before_below : (c b : PendingBid) → comes_before c b ≡ false → c.priority ≤ℤ b.priority
unfolding comes_before
not_before_below c b h = ground arith

pub place-All :
    (P : PendingBid → Type 0) (b : PendingBid) (bids : List PendingBid)
    → P b
    → All P bids
    → All P (place b bids)
unfolding place
place-All P b [] h v = (h, tt)
place-All P b (c ∷ bids) h v =
    if_cases (All P) (comes_before c b) _ _ (λ _. (v.0, place-All P b bids h v.1)) (λ _. (h, v))

place-IsSorted : (b : PendingBid) (bids : List PendingBid) → IsSorted bids → IsSorted (place b bids)
unfolding place
place-IsSorted b [] v = (tt, tt)
place-IsSorted b (c ∷ bids) v =
    if_cases IsSorted (comes_before c b) _ _
      (λ e.
        (place-All (AtMost c.priority) b bids (before_above c b e) v.0, place-IsSorted b bids v.1))
      (λ e.
        let le = not_before_below c b e in
        ((le, All-mono (AtMost c.priority) (AtMost b.priority) bids (λ x h. omega arith) v.0), v))

sort_bids-IsSorted : (bids : List PendingBid) → IsSorted (sort_bids bids)
unfolding sort_bids
sort_bids-IsSorted [] = tt
sort_bids-IsSorted (b ∷ bids) = place-IsSorted b (sort_bids bids) (sort_bids-IsSorted bids)

-- The level that is split off a sorted list competes at the price, and the rest below it.
abbrev Splits : Price → List PendingBid × List PendingBid → Type 0
Splits p r = All (At p) r.0 × All (Below p) r.1 × IsSorted r.1

split_level-Splits :
    (p : Price) (bids : List PendingBid)
    → All (AtMost p) bids
    → IsSorted bids
    → Splits p (split_level p bids)
unfolding split_level
split_level-Splits p [] h v = (tt, tt, tt)
split_level-Splits p (b ∷ bids) h v =
    let (level, rest, sorted) = split_level-Splits p bids h.1 v.1 in
    if_cases (Splits p) (eq_ℤ b.priority p) _ _ (λ e. ((e, level), rest, sorted))
      (λ e.
        let at = h.0 in
        let lt : b.priority <ℤ p = ground arith in
        (tt, (lt, All-mono (AtMost b.priority) (Below p) bids (λ x le. omega arith) v.0), v))

Awarded-All :
    (P : PendingBid → Type 0) (b : PendingBid) (m : ℕ) (bids : List PendingBid) (allocs : List ℕ)
    → All P bids
    → Awarded b m bids allocs
    → P b
Awarded-All P b m [] allocs v w = absurd w
Awarded-All P b m (c ∷ bids) [] v w = absurd w
Awarded-All P b m (c ∷ bids) (a ∷ allocs) v (inl (e, _)) = subst P e v.0
Awarded-All P b m (c ∷ bids) (a ∷ allocs) v (inr w) = Awarded-All P b m bids allocs v.1 w

Awarded-split :
    (b : PendingBid) (m : ℕ) (level rest : List PendingBid) (here later : List ℕ)
    → length here ≡ length level
    → Awarded b m (level ++ rest) (here ++ later)
    → Awarded b m level here ⊎ Awarded b m rest later
Awarded-split b m [] rest [] later e w = inr w
Awarded-split b m [] rest (a ∷ here) later e w = absurd (omega (arith, e))
Awarded-split b m (c ∷ level) rest [] later e w = absurd (omega (arith, e))
Awarded-split b m (c ∷ level) rest (a ∷ here) later e (inl w) = inl (inl w)
Awarded-split b m (c ∷ level) rest (a ∷ here) later e (inr w) =
    elim (Awarded-split b m level rest here later (omega (arith, e)) w) [
      | inl u ↦ inl (inr u)
      | inr u ↦ inr u
    ]

Awarded-zeros :
    (b : PendingBid) (m : ℕ) (level : List PendingBid) → Awarded b m level (zeros level) → m ≡ 0
Awarded-zeros b m [] w = absurd w
Awarded-zeros b m (c ∷ level) (inl (_, e)) = sym e
Awarded-zeros b m (c ∷ level) (inr w) = Awarded-zeros b m level w

Awarded-qtys :
    (b : PendingBid) (m : ℕ) (level : List PendingBid) → Awarded b m level (qtys level) → m ≡ b.qty
Awarded-qtys b m [] w = absurd w
Awarded-qtys b m (c ∷ level) (inl (same, e)) = sym e ∙ ap (λ (x : PendingBid). x.qty) same
Awarded-qtys b m (c ∷ level) (inr w) = Awarded-qtys b m level w

short_level_takes_all :
    (level : List PendingBid) (supply : Qty)
    → supply ≤ u64_max
    → leb (demand_of level) supply ≡ false
    → saturating_sub_qty supply (sum (allocate level supply)) ≡ 0
unfolding saturating_sub_qty
short_level_takes_all level supply small short =
    let total = (allocate_total level supply small).1 in
    let lt : supply < demand_of level = ground arith in omega arith

-- A level leaves nothing, or gives everyone all they wanted.
match_level-serves :
    (level : List PendingBid) (supply : Qty) (ex : Bool) (b : PendingBid) (m : ℕ)
    → supply ≤ u64_max
    → Awarded b m level (match_level level supply ex).allocs
    → (m ≡ b.qty) ⊎ ((match_level level supply ex).supply ≡ 0)
unfolding match_level saturating_sub_qty is_zero allocate
match_level-serves level supply ex b m small w = elim (Bool-cases (supply == 0)) [
  | inl z ↦ inr (rw z (ground arith))
  | inr nz ↦ elim (Bool-cases (leb (demand_of level) supply)) [
    | inl fits ↦ inl (Awarded-qtys b m level (rw (nz, fits) at w))
    | inr short ↦ inr (rw nz (short_level_takes_all level supply small short))
  ]
]

-- Once nothing is left, nobody gets anything.
match_levels-none :
    (fuel : ℕ) (bids : List PendingBid) (ex : Bool) (b : PendingBid) (m : ℕ)
    → Awarded b m bids (match_levels fuel bids 0 ex).allocs
    → m ≡ 0
unfolding match_levels match_level is_zero
match_levels-none zero [] ex b m w = absurd w
match_levels-none zero (c ∷ bids) ex b m w = absurd w
match_levels-none (suc fuel) [] ex b m w = absurd w
match_levels-none (suc fuel) (c ∷ bids) ex b m w =
    let (level, rest) = split_level c.priority (c ∷ bids) in
    elim (Awarded-split b m level rest (zeros level) (match_levels fuel rest 0 ex).allocs
      (length-map level (λ _. 0))
      (subst
        (λ (l : List PendingBid).
          Awarded b m l (zeros level ++ (match_levels fuel rest 0 ex).allocs))
        (sym (split_level-append c.priority (c ∷ bids))) w)) [
          | inl u ↦ Awarded-zeros b m level u
          | inr u ↦ match_levels-none fuel rest ex b m u
        ]

match_levels-priority :
    (fuel : ℕ) (bids : List PendingBid) (supply : Qty) (ex : Bool) (b c : PendingBid) (m n : ℕ)
    → supply ≤ u64_max
    → IsSorted bids
    → Awarded b m bids (match_levels fuel bids supply ex).allocs
    → Awarded c n bids (match_levels fuel bids supply ex).allocs
    → c.priority <ℤ b.priority
    → (m ≡ b.qty) ⊎ (n ≡ 0)
unfolding match_levels
match_levels-priority zero [] supply ex b c m n small sorted v w lt = absurd v
match_levels-priority zero (d ∷ bids) supply ex b c m n small sorted v w lt = absurd v
match_levels-priority (suc fuel) [] supply ex b c m n small sorted v w lt = absurd v
match_levels-priority (suc fuel) (d ∷ bids) supply ex b c m n small sorted v w lt =
    let (level, rest) = split_level d.priority (d ∷ bids) in
    let here : Matched = match_level level supply ex in
    let later : Matched = match_levels fuel rest here.supply here.exhausted in
    let self : d.priority ≤ℤ d.priority = omega arith in
    let (at, below, tail) = split_level-Splits d.priority (d ∷ bids) (self, sorted.0) sorted in
    let len : length here.allocs ≡ length level = length-match_level level supply ex in
    let left = (match_level-Accounts level supply ex small).conserved in
    let whole = sym (split_level-append d.priority (d ∷ bids)) in
    let part =
      λ (x : PendingBid) (k : ℕ) (u : Awarded x k (d ∷ bids) (here.allocs ++ later.allocs)).
        Awarded-split x k level rest here.allocs later.allocs len
          (subst (λ (l : List PendingBid). Awarded x k l (here.allocs ++ later.allocs)) whole u) in
    elim (part b m v) [
      | inl hb ↦ elim (match_level-serves level supply ex b m small hb) [
        | inl full ↦ inl full
        | inr gone ↦ elim (part c n w) [
          | inl hc ↦
              let eb = Awarded-All (At d.priority) b m level here.allocs at hb in
              let ec = Awarded-All (At d.priority) c n level here.allocs at hc in
              absurd (ground arith)
          | inr lc ↦ inr (
              match_levels-none fuel rest here.exhausted c n (
                subst (λ (k : ℕ). Awarded c n rest (match_levels fuel rest k here.exhausted).allocs)
                  gone lc))
        ]
      ]
      | inr lb ↦ elim (part c n w) [
        | inl hc ↦
            let below_b = Awarded-All (Below d.priority) b m rest later.allocs below lb in
            let ec = Awarded-All (At d.priority) c n level here.allocs at hc in
            absurd (ground arith)
        | inr lc ↦
            match_levels-priority fuel rest here.supply here.exhausted b c m n (omega arith) tail lb
              lc lt
      ]
    ]

-- Of two bids of a window that compete at different prices, the lower one gets units only if the
-- higher one gets all that it asked for, for a supply that is a u64.
pub price_priority :
    (bids : List PendingBid) (supply : Qty) (b c : PendingBid) (m n : ℕ)
    → supply ≤ u64_max
    → Awarded b m (sort_bids bids) (match_window (sort_bids bids) supply).allocs
    → Awarded c n (sort_bids bids) (match_window (sort_bids bids) supply).allocs
    → c.priority <ℤ b.priority
    → (m ≡ b.qty) ⊎ (n ≡ 0)
unfolding match_window
price_priority bids supply b c m n small =
    match_levels-priority (length (sort_bids bids)) (sort_bids bids) supply false b c m n small
      (sort_bids-IsSorted bids)
