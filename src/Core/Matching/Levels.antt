-- ===== src/Core/Matching/Levels.antt =====
-- crates/auction-core/src/state.rs, `flush_window`: the loop over the price levels.
use dutch_auction.Base.{
  ◌⊎◌, sym, inl, inr, Bool-cases, ℕ, zero, suc, ◌+◌, ◌≤◌, ◌≡◌, refl, arith, List, [], ◌∷◌, ◌++◌,
  Bool, true, false, sum, sum-append, length, length-append, length-map, if_cases, ◌==◌, Bool-cases,
  inl, inr,
}
use dutch_auction.Base.Word.{u64_max}
use dutch_auction.Proto.Money.{Price, Qty, is_zero, saturating_sub_qty}
use dutch_auction.Core.Bid.{PendingBid}
use dutch_auction.Core.Allocate.Total.{allocate_total, length-allocate}
use dutch_auction.Core.Matching.{
  place, sort_bids, split_level, Matched, zeros, match_level, match_levels, match_window,
}

pub split_level-append :
    (p : Price) (bids : List PendingBid) → (split_level p bids).0 ++ (split_level p bids).1 ≡ bids
unfolding split_level
split_level-append p [] = refl
split_level-append p (b ∷ bids) = ground (arith, split_level-append p bids)

pub length-split_level :
    (p : Price) (bids : List PendingBid)
    → length (split_level p bids).0 + length (split_level p bids).1 ≡ length bids
unfolding split_level
length-split_level p [] = omega arith
length-split_level p (b ∷ bids) = ground (arith, length-split_level p bids)

-- the bid that starts a level is in it
pub split_level-shorter :
    (b : PendingBid) (bids : List PendingBid)
    → length (split_level b.priority (b ∷ bids)).1 ≤ length bids
unfolding split_level
split_level-shorter b bids = ground (arith, length-split_level b.priority bids)

sum-zeros : (level : List PendingBid) → sum (zeros level) ≡ 0
sum-zeros [] = refl
sum-zeros (b ∷ level) = omega (arith, sum-zeros level)

-- What matching some bids does: one allocation for each, the supply falls by their sum, and
-- `exhausted` says whether the supply is gone, if it did so before.
pub record Accounts (bids : List PendingBid) (supply : Qty) (exhausted : Bool) (m : Matched)
    : Type 0 where
  pub complete : length m.allocs ≡ length bids
  pub conserved : sum m.allocs + m.supply ≡ supply
  pub tracked : exhausted ≡ is_zero supply → m.exhausted ≡ is_zero m.supply

pub match_level-Accounts :
    (level : List PendingBid) (supply : Qty) (exhausted : Bool)
    → supply ≤ u64_max
    → Accounts level supply exhausted (match_level level supply exhausted)
unfolding match_level saturating_sub_qty is_zero
match_level-Accounts level supply exhausted h = elim (Bool-cases (supply == 0)) [
  | inl z ↦ rw z (record {
    complete = length-map level (λ _. 0);
    conserved = omega (arith, sum-zeros level);
    tracked = λ e. e;
  })
  | inr nz ↦
      let (len, total) = allocate_total level supply h in
      rw nz (record { complete = len; conserved = omega arith; tracked = λ _. refl })
]

pub match_levels-Accounts :
    (fuel : ℕ) (bids : List PendingBid) (supply : Qty) (exhausted : Bool)
    → length bids ≤ fuel
    → supply ≤ u64_max
    → Accounts bids supply exhausted (match_levels fuel bids supply exhausted)
unfolding match_levels
match_levels-Accounts zero [] supply ex f h = record {
  complete = refl;
  conserved = omega arith;
  tracked = λ e. e;
}
match_levels-Accounts zero (b ∷ bids) supply ex f h = absurd (omega arith)
match_levels-Accounts (suc fuel) [] supply ex f h = record {
  complete = refl;
  conserved = omega arith;
  tracked = λ e. e;
}
match_levels-Accounts (suc fuel) (b ∷ bids) supply ex f h =
    let level : List PendingBid = (split_level b.priority (b ∷ bids)).0 in
    let rest : List PendingBid = (split_level b.priority (b ∷ bids)).1 in
    let here : Matched = match_level level supply ex in
    let a : Accounts level supply ex here = match_level-Accounts level supply ex h in
    let c = a.conserved in
    let z : Accounts rest here.supply here.exhausted
        (match_levels fuel rest here.supply here.exhausted) =
      match_levels-Accounts fuel rest here.supply here.exhausted
        (omega (arith, split_level-shorter b bids)) (omega arith) in
    record {
      complete = omega (
        arith,
        a.complete,
        z.complete,
        length-append here.allocs (match_levels fuel rest here.supply here.exhausted).allocs,
        length-split_level b.priority (b ∷ bids),
      );
      conserved = omega (
        arith,
        a.conserved,
        z.conserved,
        sum-append here.allocs (match_levels fuel rest here.supply here.exhausted).allocs,
      );
      tracked = λ e. z.tracked (a.tracked e);
    }

-- Of a window, as `match_levels-Accounts` of its bids.
pub match_window-Accounts :
    (bids : List PendingBid) (supply : Qty)
    → supply ≤ u64_max
    → Accounts bids supply false (match_window bids supply)
unfolding match_window
match_window-Accounts bids supply h =
    match_levels-Accounts (length bids) bids supply false (omega arith) h

pub length-match_level :
    (level : List PendingBid) (supply : Qty) (exhausted : Bool)
    → length (match_level level supply exhausted).allocs ≡ length level
unfolding match_level
length-match_level level supply ex =
    if_cases (λ (m : Matched). length m.allocs ≡ length level) (is_zero supply) _ _
      (λ _. length-map level (λ _. 0)) (λ _. length-allocate level supply)

length-match_levels :
    (fuel : ℕ) (bids : List PendingBid) (supply : Qty) (exhausted : Bool)
    → length bids ≤ fuel
    → length (match_levels fuel bids supply exhausted).allocs ≡ length bids
unfolding match_levels
length-match_levels zero [] supply ex f = refl
length-match_levels zero (b ∷ bids) supply ex f = absurd (omega arith)
length-match_levels (suc fuel) [] supply ex f = refl
length-match_levels (suc fuel) (b ∷ bids) supply ex f =
    let level : List PendingBid = (split_level b.priority (b ∷ bids)).0 in
    let rest : List PendingBid = (split_level b.priority (b ∷ bids)).1 in
    let here : Matched = match_level level supply ex in
    let later : Matched = match_levels fuel rest here.supply here.exhausted in
    omega (
      arith,
      length-append here.allocs later.allocs,
      length-match_level level supply ex,
      length-match_levels fuel rest here.supply here.exhausted
          (omega (arith, split_level-shorter b bids)),
      length-split_level b.priority (b ∷ bids),
    )

length-place : (b : PendingBid) (bids : List PendingBid) → length (place b bids) ≡ suc (length bids)
unfolding place
length-place b [] = refl
length-place b (c ∷ bids) = ground (arith, length-place b bids)

pub length-sort_bids : (bids : List PendingBid) → length (sort_bids bids) ≡ length bids
unfolding sort_bids
length-sort_bids [] = refl
length-sort_bids (b ∷ bids) = omega (arith, length-place b (sort_bids bids), length-sort_bids bids)

-- One allocation for each bid of a window, whatever the supply.
pub length-match_window :
    (bids : List PendingBid) (supply : Qty)
    → length (match_window (sort_bids bids) supply).allocs ≡ length (sort_bids bids)
unfolding match_window
length-match_window bids supply =
    length-match_levels (length (sort_bids bids)) (sort_bids bids) supply false (omega arith)

-- For a supply that is a u64, matching a window gives every bid an allocation, and what it allocates
-- and what it leaves add up to the supply; if there was supply, it reports `exhausted` exactly if
-- none is left.
pub match_window_total :
    (bids : List PendingBid) (supply : Qty)
    → supply ≤ u64_max
    → (length (match_window bids supply).allocs ≡ length bids)
      × (sum (match_window bids supply).allocs + (match_window bids supply).supply ≡ supply)
      × ((supply ≡ 0)
          ⊎ ((match_window bids supply).exhausted ≡ is_zero (match_window bids supply).supply))
unfolding is_zero
match_window_total bids supply h =
    let a = match_window-Accounts bids supply h in
    (
      a.complete,
      a.conserved,
      elim (Bool-cases (is_zero supply)) [
        | inl z ↦ inl (zero_of z)
        | inr z ↦ inr (a.tracked (sym z))
      ],
    )
  where
    zero_of : is_zero supply ≡ true → supply ≡ 0
    zero_of z = ground arith
