-- ===== src/Core/Backing/Moves.antt =====
-- crates/auction-core/src/state.rs: `reserve`, `commit` and `release` are exact on amounts that fit.
use dutch_auction.Base.{
  ℕ, ◌+◌, ◌-◌, ◌*◌, ◌≤◌, ◌≡◌, refl, ◌∙◌, sym, ap, subst, arith, Bool, true, false, some, ◌==◌,
  if_cases, option_cases, Bool-cases, inl, inr, BTreeMap, insert, get_or, get_or-insert,
}
use dutch_auction.Base.Int.{ℤ, pos, negsuc, neg_part, ltb_ℤ, ◌≤ℤ◌, ◌*ℤ◌, ◌-ℤ◌, ◌+ℤ◌}
use dutch_auction.Base.Word.{
  i64_max, try_i64, checked_mul_i64, saturate_i64, saturating_sub_i64, saturating_add_i64,
}
use dutch_auction.Proto.Ids.{ParticipantId}
use dutch_auction.Proto.Money.{Price, Qty, checked_mul_qty}
use dutch_auction.Core.Bid.{Collateral, no_collateral, available}
use dutch_auction.Core.State.{commit, release, reserve}
use dutch_auction.Core.Backing.{cost, owes, IsFit, Holds}

mul_pos : (n q : ℕ) → pos n *ℤ pos q ≡ pos (n * q)
unfolding ◌*ℤ◌
mul_pos n q = ground arith

-- The checked product of amounts that fit is there, and is the cost.
pub checked_cost :
    (price : Price) (qty : Qty)
    → IsFit price qty
    → checked_mul_qty price qty ≡ some (pos (cost price qty))
unfolding checked_mul_qty checked_mul_i64 try_i64
checked_cost (pos n) qty fit = let e = mul_pos n qty in ground (arith, fit)
checked_cost (negsuc n) qty fit = absurd (omega (arith, fit.signless))

-- A checked product of a price that is not negative fits.
pub checked_mul_qty-IsFit :
    (price : Price) (qty : Qty) {amount : ℤ}
    → neg_part price ≡ 0
    → checked_mul_qty price qty ≡ some amount
    → IsFit price qty × (amount ≡ pos (cost price qty))
unfolding checked_mul_qty checked_mul_i64 try_i64
checked_mul_qty-IsFit (pos n) qty {amount} h e =
    let m = mul_pos n qty in
    (record { signless = refl; small_qty = ground arith; small_cost = ground arith }, ground arith)
checked_mul_qty-IsFit (negsuc n) qty h e = absurd (omega arith)

pub sub_exact : (n k : ℕ) → k ≤ n → n ≤ i64_max → saturating_sub_i64 (pos n) (pos k) ≡ pos (n - k)
unfolding saturating_sub_i64 saturate_i64 ◌-ℤ◌
sub_exact n k h small = ground arith

add_exact : (n k : ℕ) → n + k ≤ i64_max → saturating_add_i64 (pos n) (pos k) ≡ pos (n + k)
unfolding saturating_add_i64 saturate_i64 ◌+ℤ◌
add_exact n k h = ground arith

-- What is available covers no more than the limit leaves.
room_left :
    (limit : ℤ) (n k cap : ℕ)
    → limit ≤ℤ pos cap
    → n ≤ cap
    → cap ≤ i64_max
    → ltb_ℤ (saturating_sub_i64 limit (pos n)) (pos k) ≡ false
    → k + n ≤ cap
unfolding saturating_sub_i64 saturate_i64 ◌-ℤ◌
room_left (pos l) n k cap h small big e = ground arith
room_left (negsuc l) n k cap h small big e = ground arith

-- What a reservation leaves: the cost on top and within the cap, or nothing changed.
abbrev pub Reserved :
    ParticipantId → ℕ → ℕ → ParticipantId → Price → Qty → Bool × BTreeMap Collateral → Type 0
Reserved p cap n who price qty (true, m) =
    IsFit price qty × Holds p cap (owes p who price qty + n) m × (owes p who price qty + n ≤ cap)
Reserved p cap n who price qty (false, m) = Holds p cap n m

module _ (p : ParticipantId) (cap : ℕ) where
  -- An update of one participant's committed amount.
  Holds-insert :
      (who : ParticipantId) (amount : ℤ) (m : BTreeMap Collateral) (n k : ℕ)
      → Holds p cap n m
      → ((who == p) ≡ true → amount ≡ pos k)
      → ((who == p) ≡ false → n ≡ k)
      → Holds p cap k (insert who (record (get_or who no_collateral m) { committed = amount }) m)
  Holds-insert who amount m n k v mine other = elim (Bool-cases (who == p)) [
    | inl e ↦
        let same : who ≡ p = ground arith in
        let found : get_or p no_collateral
              (insert who (record (get_or who no_collateral m) { committed = amount }) m)
            ≡ record (get_or who no_collateral m) { committed = amount } =
          get_or-insert who p _ no_collateral m ∙ rw e refl in
        record {
          committed = ap (λ (c : Collateral). c.committed) found ∙ mine e;
          limited =
              subst (λ (x : ℤ). x ≤ℤ pos cap) (sym (ap (λ (c : Collateral). c.limit) found))
                (subst (λ j. (get_or j no_collateral m).limit ≤ℤ pos cap) (sym same) v.limited);
        }
    | inr e ↦
        let found : get_or p no_collateral
              (insert who (record (get_or who no_collateral m) { committed = amount }) m)
            ≡ get_or p no_collateral m =
          get_or-insert who p _ no_collateral m ∙ rw e refl in
        record {
          committed = ap (λ (c : Collateral). c.committed) found ∙ v.committed ∙ ap pos (other e);
          limited =
              subst (λ (x : ℤ). x ≤ℤ pos cap) (sym (ap (λ (c : Collateral). c.limit) found))
                v.limited;
        }
  ]

  -- What is committed for `who`, if that is `p`.
  own_committed :
      (who : ParticipantId) (m : BTreeMap Collateral) (n : ℕ)
      → Holds p cap n m
      → (who == p) ≡ true
      → (get_or who no_collateral m).committed ≡ pos n
  own_committed who m n v e =
      let same : who ≡ p = ground arith in
      subst (λ j. (get_or j no_collateral m).committed ≡ pos n) (sym same) v.committed

  owes_own :
      (who : ParticipantId) (price : Price) (qty : Qty)
      → (who == p) ≡ true
      → owes p who price qty ≡ cost price qty
  unfolding owes
  owes_own who price qty e = rw e refl

  owes_other :
      (who : ParticipantId) (price : Price) (qty : Qty)
      → (who == p) ≡ false
      → owes p who price qty ≡ 0
  unfolding owes
  owes_other who price qty e = rw e refl

  own_limited :
      (who : ParticipantId) (m : BTreeMap Collateral) (n : ℕ)
      → Holds p cap n m
      → (who == p) ≡ true
      → (get_or who no_collateral m).limit ≤ℤ pos cap
  own_limited who m n v e =
      let same : who ≡ p = ground arith in
      subst (λ j. (get_or j no_collateral m).limit ≤ℤ pos cap) (sym same) v.limited

  pub release-Holds :
      (who : ParticipantId) (price : Price) (qty : Qty) (m : BTreeMap Collateral) (n : ℕ)
      → IsFit price qty
      → owes p who price qty + n ≤ i64_max
      → Holds p cap (owes p who price qty + n) m
      → Holds p cap n (release who price qty m)
  unfolding release owes
  release-Holds who price qty m n fit small v =
      Holds-insert who _ m _ n v
        (λ e.
          rw (checked_cost price qty fit, own_committed who m _ v e, e)
            (sub_exact (cost price qty + n) (cost price qty) (omega arith) (rw e at small)
              ∙ ap pos (omega arith)))
        (λ e. rw e (omega arith))

  pub commit-Holds :
      (who : ParticipantId) (price : Price) (qty : Qty) (m : BTreeMap Collateral) (n : ℕ)
      → IsFit price qty
      → owes p who price qty + n ≤ i64_max
      → Holds p cap n m
      → Holds p cap (owes p who price qty + n) (commit who price qty m)
  unfolding commit owes
  commit-Holds who price qty m n fit small v =
      Holds-insert who _ m n _ v
        (λ e.
          let room : cost price qty + n ≤ i64_max = rw e at small in
          rw (checked_cost price qty fit, own_committed who m n v e, e)
            (add_exact n (cost price qty) (omega arith) ∙ ap pos (omega arith)))
        (λ e. rw e (omega arith))

  pub reserve-Holds :
      (who : ParticipantId) (price : Price) (qty : Qty) (m : BTreeMap Collateral) (n : ℕ)
      → neg_part price ≡ 0
      → cap ≤ i64_max
      → n ≤ cap
      → Holds p cap n m
      → Reserved p cap n who price qty (reserve who price qty m)
  unfolding reserve available
  reserve-Holds who price qty m n signless big within v =
      option_cases (Reserved p cap n who price qty) (checked_mul_qty price qty) _ _ (λ _. v)
        λ amount e.
          let (fit, exact) = checked_mul_qty-IsFit price qty signless e in
          let c : Collateral = get_or who no_collateral m in
          if_cases (Reserved p cap n who price qty)
            (ltb_ℤ (saturating_sub_i64 c.limit c.committed) amount) _ _
            (λ _. Holds-insert who c.committed m n n v (own_committed who m n v) (λ _. refl))
            λ covered.
              let room = λ (mine : (who == p) ≡ true).
                room_left c.limit n (cost price qty) cap (own_limited who m n v mine) within big (
                  subst
                    (λ (x : ℤ). ltb_ℤ (saturating_sub_i64 c.limit x) (pos (cost price qty)) ≡ false)
                    (own_committed who m n v mine)
                    (subst (λ (x : ℤ). ltb_ℤ (saturating_sub_i64 c.limit c.committed) x ≡ false)
                      exact covered)) in
              let total : owes p who price qty + n ≤ cap = elim (Bool-cases (who == p)) [
                | inl mine ↦ rw (owes_own who price qty mine) (room mine)
                | inr other ↦ rw (owes_other who price qty other) (omega arith)
              ] in
              (
                fit,
                Holds-insert who _ m n _ v
                    (λ mine.
                      rw (own_committed who m n v mine, exact, owes_own who price qty mine)
                        (add_exact n (cost price qty) (omega (arith, room mine))
                          ∙ ap pos (omega arith)))
                    (λ other. rw (owes_other who price qty other) (omega arith)),
                total,
              )
