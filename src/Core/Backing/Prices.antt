-- ===== src/Core/Backing/Prices.antt =====
-- crates/auction-core/src/state.rs, `window_bounds`: the prices of windows fall with the clock.
use native.Mathlib.Nat.{lt-div-mul-add, mul-le-mul_right}
use dutch_auction.Base.{
  ℕ, ◌-◌, ◌/◌, ◌≤◌, ◌<◌, ◌≡◌, refl, ap, arith, ◌==◌, if_cases, Bool-cases, inl, inr, div_mono,
}
use dutch_auction.Base.Int.{pos_part, pos, negsuc, neg_part, ◌≤ℤ◌}
use dutch_auction.Base.Word.{u64_max, saturating_add_u64, saturating_mul_u64}
use dutch_auction.Proto.Money.{Price}
use dutch_auction.Proto.Time.{Nanos}
use dutch_auction.Core.Config.{AuctionConfig, price_at, floor_price}
use dutch_auction.Core.Schedule.Bounds.{IsPublished, price_at_bounds, price_at_antitone}
use dutch_auction.Core.State.{window_bounds}

-- Terms as they are published, with a floor that is not negative.
pub record IsFair (c : AuctionConfig) : Type 0 where
  pub published : IsPublished c.schedule
  pub signless : neg_part (floor_price c) ≡ 0

last_of : ℕ → ℕ → ℕ
last_of width index = saturating_add_u64 (saturating_mul_u64 index width) (width - 1)

last_mono : (width i j : ℕ) → i ≤ j → last_of width i ≤ last_of width j
unfolding last_of saturating_add_u64 saturating_mul_u64
last_mono width i j h = omega (arith, mul-le-mul_right width h)

last_covers : (width t : ℕ) → 0 < width → t ≤ u64_max → t ≤ last_of width (t / width)
unfolding last_of saturating_add_u64 saturating_mul_u64
last_covers width t h small = omega (arith, lt-div-mul-add {a = t} h)

pub signless_above : (low high : Price) → low ≤ℤ high → neg_part low ≡ 0 → neg_part high ≡ 0
signless_above low (pos n) h e = refl
signless_above low (negsuc n) h e = absurd (omega arith)

pub parts_mono : (low high : Price) → neg_part low ≡ 0 → low ≤ℤ high → pos_part low ≤ pos_part high
parts_mono low high e h = omega arith

module _ (c : AuctionConfig) (fair : IsFair c) where
  clock_falls : (t u : Nanos) → t ≤ u → price_at c u ≤ℤ price_at c t
  unfolding price_at
  clock_falls t u h = price_at_antitone c.schedule t u fair.published h

  clock_above_floor : (t : Nanos) → floor_price c ≤ℤ price_at c t
  unfolding price_at floor_price
  clock_above_floor t = (price_at_bounds c.schedule t fair.published).0

  pub window_falls : (t u : Nanos) → t ≤ u → (window_bounds c u).1 ≤ℤ (window_bounds c t).1
  unfolding window_bounds last_of
  window_falls t u h = elim (Bool-cases (c.batch_window == 0)) [
    | inl e ↦ rw e (clock_falls t u h)
    | inr e ↦ rw e (
        clock_falls _ _ (
          last_mono c.batch_window (t / c.batch_window) (u / c.batch_window)
            (div_mono t u c.batch_window h)))
  ]

  pub window_below_clock : (t : Nanos) → t ≤ u64_max → (window_bounds c t).1 ≤ℤ price_at c t
  unfolding window_bounds last_of
  window_below_clock t small = elim (Bool-cases (c.batch_window == 0)) [
    | inl e ↦ rw e (omega arith)
    | inr e ↦
        let wide : 0 < c.batch_window = ground arith in
        rw e (clock_falls t _ (last_covers c.batch_window t wide small))
  ]

  pub window_above_floor : (t : Nanos) → floor_price c ≤ℤ (window_bounds c t).1
  unfolding window_bounds
  window_above_floor t =
      if_cases (λ (w : ℕ × Price). floor_price c ≤ℤ w.1) (c.batch_window == 0) _ _
        (λ _. clock_above_floor t) (λ _. clock_above_floor _)

  pub window_signless : (t : Nanos) → neg_part (window_bounds c t).1 ≡ 0
  window_signless t = signless_above _ _ (window_above_floor t) fair.signless

-- The index of a window grows with the instant, and decides its price.
pub index_grows :
    (c : AuctionConfig) (t u : Nanos) → t ≤ u → (window_bounds c t).0 ≤ (window_bounds c u).0
unfolding window_bounds
index_grows c t u h = elim (Bool-cases (c.batch_window == 0)) [
  | inl e ↦ rw e h
  | inr e ↦ rw e (div_mono t u c.batch_window h)
]

pub same_window :
    (c : AuctionConfig) (t u : Nanos)
    → (window_bounds c t).0 ≡ (window_bounds c u).0
    → (window_bounds c t).1 ≡ (window_bounds c u).1
unfolding window_bounds
same_window c t u = elim (Bool-cases (c.batch_window == 0)) [
  | inl e ↦ rw e (λ same. ap (price_at c) same)
  | inr e ↦ rw e (λ same.
      ap
        (λ i.
          price_at c
            (saturating_add_u64 (saturating_mul_u64 i c.batch_window) (c.batch_window - 1)))
        same)
]
