-- ===== src/Core/Schedule/Reach.antt =====
-- crates/auction-core/src/schedule.rs, `time_to_reach` against `price_at`: the instant it returns is
-- the first at which the price has met the target.
use native.Mathlib.Nat.{mul-div_cancel}
use dutch_auction.Base.{
  ℕ, zero, suc, ◌+◌, ◌-◌, ◌*◌, ◌/◌, ◌≤◌, ◌<◌, ◌≡◌, arith, min, ◌==◌, Bool-cases, ltb, inl, inr, ◌⊎◌,
  Option, none, min_mul, some, ceil_reaches, ceil_least, le_div, div_lt, if◌then◌else◌,
}
use dutch_auction.Base.Int.{
  pos, negsuc, pos_part, neg_part, ◌+ℤ◌, ◌-ℤ◌, ◌*ℤ◌, ◌≤ℤ◌, ◌<ℤ◌, quot_ℤ, ltb_ℤ,
}
use dutch_auction.Base.Word.{
  i64_max, u64_max, IsI64, saturate_i64, try_u64, saturating_sub_i64, saturating_mul_u64, unwrap_or,
}
use dutch_auction.Proto.Money.{Price, clamp_to}
use dutch_auction.Proto.Time.{Nanos}
use dutch_auction.Core.Schedule.{
  ScheduleKind, stepped, linear, PriceSchedule, dropped_price, price_at_kind, price_at, ceil_div,
  time_to_drop, time_to_reach,
}
use dutch_auction.Core.Schedule.Bounds.{
  IsDescending, IsPublished, saturating_drop-pos, linear_drop-pos, price_at_bounds,
}

-- The prices are i64 values whose spread is one too, and a step takes time.
abbrev pub HasLength : ScheduleKind → Type 0
HasLength (stepped step_duration _) = 0 < step_duration
HasLength (linear _) = Unit

pub record IsUsual (s : PriceSchedule) : Type 0 where
  pub published : IsPublished s
  pub start_fits : IsI64 s.start_price
  pub floor_fits : IsI64 s.floor_price
  pub spread_fits :
      pos_part s.start_price + neg_part s.floor_price
      ≤ pos_part s.floor_price + neg_part s.start_price + i64_max
  pub long : HasLength s.kind

-- `target` lies `n` below the start price.
abbrev Below : Price → Price → ℕ → Type 0
Below start target n = pos_part start + neg_part target ≡ pos_part target + neg_part start + n

clamped :
    (a f g : Price) (n d : ℕ)
    → IsI64 a
    → IsI64 f
    → f ≤ℤ a
    → f ≤ℤ g
    → Below a g n
    → let p = clamp_to (saturating_sub_i64 a (pos d)) f a in (n ≤ d → p ≤ℤ g) × (d < n → g <ℤ p)
unfolding clamp_to saturating_sub_i64 saturate_i64 ◌-ℤ◌
clamped a f g n d ha hf fa fg b = (λ le. ground arith, λ lt. ground arith)

dropped_price_reaches :
    (s : PriceSchedule) (g : Price) (n d : ℕ)
    → IsUsual s
    → s.floor_price ≤ℤ g
    → Below s.start_price g n
    → (n ≤ d → dropped_price s (pos d) ≤ℤ g) × (d < n → g <ℤ dropped_price s (pos d))
unfolding dropped_price
dropped_price_reaches s g n d v fg b =
    clamped s.start_price s.floor_price g n d v.start_fits v.floor_fits v.published.ordered fg b

drop_needed : (a g : Price) (n : ℕ) → Below a g n → n ≤ i64_max → saturating_sub_i64 a g ≡ pos n
unfolding saturating_sub_i64 saturate_i64 ◌-ℤ◌
drop_needed a g n b h = ground arith

ceil_div-pos : (n k : ℕ) → ceil_div (pos n) (pos (suc k)) ≡ pos ((n + suc k - 1) / suc k)
unfolding ceil_div quot_ℤ ◌+ℤ◌ ◌-ℤ◌
ceil_div-pos n k = ground arith

saturated : (n : ℕ) → unwrap_or (try_u64 (pos n)) u64_max ≡ min n u64_max
unfolding try_u64
saturated n = ground arith

-- How long a clock takes to drop by `n`, for a step or a rate of `suc k`.
steps_needed : ℕ → ℕ → ℕ
steps_needed n k = (n + suc k - 1) / suc k

pos-*ℤ : (m n : ℕ) → pos m *ℤ pos n ≡ pos (m * n)
unfolding ◌*ℤ◌
pos-*ℤ m n = ground arith

time_to_drop-stepped :
    (dur k n : ℕ)
    → 0 < dur
    → time_to_drop (stepped dur (pos (suc k))) (pos n)
      ≡ some (min ((n + suc k - 1) / suc k * dur) u64_max)
unfolding time_to_drop saturating_mul_u64
time_to_drop-stepped dur k n h =
    rw (ceil_div-pos n k, saturated ((n + suc k - 1) / suc k))
      (ground (arith, min_mul ((n + suc k - 1) / suc k) dur u64_max h))

time_to_drop-linear :
    (k n : ℕ)
    → time_to_drop (linear (pos (suc k))) (pos n)
      ≡ some (min ((n * 1_000_000_000 + suc k - 1) / suc k) u64_max)
unfolding time_to_drop
time_to_drop-linear k n =
    rw
      (
        pos-*ℤ n 1_000_000_000,
        ceil_div-pos (n * 1_000_000_000) k,
        saturated ((n * 1_000_000_000 + suc k - 1) / suc k),
      )
      (ground arith)

-- What an answer of `time_to_reach` should mean for a clock `price`. `some due`: before `due` the price
-- is above the target, and at `due` it is not, unless `due` is the saturated end of time; at some instant
-- it is not. `none`: the price is above the target at every instant.
abbrev pub Answers : (Nanos → Price) → Price → Option Nanos → Type 0
Answers price target (some due) =
    (due < u64_max → price due ≤ℤ target)
    × ((u : Nanos) → u < due → target <ℤ price u)
    × (u : Nanos) × (price u ≤ℤ target)
Answers price target none = (u : Nanos) → target <ℤ price u

module _ (s : PriceSchedule) (g : Price) (n : ℕ) (v : IsUsual s) (fg : s.floor_price ≤ℤ g)
    (b : Below s.start_price g n) where
  small : n ≤ i64_max
  small = let w = v.spread_fits in omega arith

  stepped_first :
      (dur k : ℕ)
      → 0 < dur
      → Answers
          (price_at_kind (stepped dur (pos (suc k))) s)
          g
          (some (min (steps_needed n k * dur) u64_max))
  unfolding price_at_kind steps_needed
  stepped_first dur k h = (reached, (λ u lt. early u lt), steps * dur, met)
    where
      steps : ℕ
      steps = steps_needed n k

      price :
          (u : ℕ)
          → price_at_kind (stepped dur (pos (suc k))) s u
            ≡ dropped_price s (pos (min (u / dur * suc k) i64_max))
      price u = ground (
        arith,
        saturating_drop-pos (u / dur) (suc k),
        min_mul (u / dur) (suc k) i64_max (omega arith),
      )

      met : price_at_kind (stepped dur (pos (suc k))) s (steps * dur) ≤ℤ g
      met =
          rw (price (steps * dur), mul-div_cancel steps h)
            ((dropped_price_reaches s g n (min (steps * suc k) i64_max) v fg b).0
              (omega (arith, small, ceil_reaches n (suc k) (omega arith))))

      reached :
          min (steps * dur) u64_max < u64_max
          → price_at_kind (stepped dur (pos (suc k))) s (min (steps * dur) u64_max) ≤ℤ g
      reached lt = let e : min (steps * dur) u64_max ≡ steps * dur = omega arith in rw e met

      early :
          (u : ℕ)
          → u < min (steps * dur) u64_max
          → g <ℤ price_at_kind (stepped dur (pos (suc k))) s u
      early u lt = rw (price u) (
          (dropped_price_reaches s g n (min (u / dur * suc k) i64_max) v fg b).1 (
            omega (
              arith,
              ceil_least n (suc k) (u / dur) (omega arith) (div_lt steps u dur h (omega arith)),
            )))

  linear_first :
      (k : ℕ)
      → Answers
          (price_at_kind (linear (pos (suc k))) s)
          g
          (some (min (steps_needed (n * 1_000_000_000) k) u64_max))
  unfolding price_at_kind steps_needed
  linear_first k = (reached, (λ u lt. early u lt), due, met)
    where
      due : ℕ
      due = steps_needed (n * 1_000_000_000) k

      price :
          (u : ℕ)
          → price_at_kind (linear (pos (suc k))) s u
            ≡ dropped_price s (pos (min (u * suc k / 1_000_000_000) i64_max))
      price u = rw (linear_drop-pos u (suc k))

      met : price_at_kind (linear (pos (suc k))) s due ≤ℤ g
      met = rw (price due) (
          (dropped_price_reaches s g n (min (due * suc k / 1_000_000_000) i64_max) v fg b).0 (
            omega (
              arith,
              small,
              le_div n (due * suc k) 1_000_000_000 (omega arith)
                  (ceil_reaches (n * 1_000_000_000) (suc k) (omega arith)),
            )))

      reached :
          min due u64_max < u64_max → price_at_kind (linear (pos (suc k))) s (min due u64_max) ≤ℤ g
      reached lt = let e : min due u64_max ≡ due = omega arith in rw e met

      early : (u : ℕ) → u < min due u64_max → g <ℤ price_at_kind (linear (pos (suc k))) s u
      early u lt = rw (price u) (
          (dropped_price_reaches s g n (min (u * suc k / 1_000_000_000) i64_max) v fg b).1 (
            omega (
              arith,
              div_lt n (u * suc k) 1_000_000_000 (omega arith)
                  (ceil_least (n * 1_000_000_000) (suc k) u (omega arith) (omega arith)),
            )))

  stepped_still :
      (dur : ℕ) (u : Nanos)
      → 0 < dur
      → price_at_kind (stepped dur (pos 0)) s u ≡ dropped_price s (pos 0)
  unfolding price_at_kind
  stepped_still dur u h =
      let e : min (min (u / dur) i64_max * 0) i64_max ≡ 0 = omega arith in
      rw (saturating_drop-pos (u / dur) 0, e) (ground arith)

  linear_still : (u : Nanos) → price_at_kind (linear (pos 0)) s u ≡ dropped_price s (pos 0)
  unfolding price_at_kind
  linear_still u =
      let e : min (u * 0 / 1_000_000_000) i64_max ≡ 0 = omega arith in rw (linear_drop-pos u 0, e)

  -- A clock that does not move has met the target only if the target is the start price.
  still :
      (k : ScheduleKind)
      → ((u : Nanos) → price_at_kind k s u ≡ dropped_price s (pos 0))
      → time_to_drop k (pos n) ≡ (if n == 0 then some 0 else none)
      → Answers (price_at_kind k s) g (time_to_drop k (pos n))
  still k price time = rw time (elim (Bool-cases (n == 0)) [
    | inl e ↦ rw e (
      λ _. rw (price 0) ((dropped_price_reaches s g n 0 v fg b).0 (ground arith)),
      (λ u lt. absurd (omega arith)),
      0,
      rw (price 0) ((dropped_price_reaches s g n 0 v fg b).0 (ground arith)),
    )
    | inr e ↦ rw e (λ u. rw (price u) ((dropped_price_reaches s g n 0 v fg b).1 (ground arith)))
  ])

  time_to_drop-still :
      (dur : ℕ)
      → (time_to_drop (stepped dur (pos 0)) (pos n) ≡ (if n == 0 then some 0 else none))
        × (time_to_drop (linear (pos 0)) (pos n) ≡ (if n == 0 then some 0 else none))
  unfolding time_to_drop
  time_to_drop-still dur = (ground arith, ground arith)

  drop_first :
      (k : ScheduleKind)
      → IsDescending k
      → HasLength k
      → Answers (price_at_kind k s) g (time_to_drop k (pos n))
  unfolding steps_needed
  drop_first (stepped dur (negsuc size)) d h = absurd (omega arith)
  drop_first (stepped dur (pos zero)) d h =
      still (stepped dur (pos zero)) (λ u. stepped_still dur u h) (time_to_drop-still dur).0
  drop_first (stepped dur (pos (suc size))) d h =
      rw (time_to_drop-stepped dur size n h) (stepped_first dur size h)
  drop_first (linear (negsuc rate)) d h = absurd (omega arith)
  drop_first (linear (pos zero)) d h =
      still (linear (pos zero)) linear_still (time_to_drop-still 0).1
  drop_first (linear (pos (suc rate))) d h = rw (time_to_drop-linear rate n) (linear_first rate)

due_first :
    (s : PriceSchedule) (target : Price)
    → IsUsual s
    → Answers (price_at s) target (time_to_reach s target)
unfolding price_at time_to_reach
due_first s g v = elim (Bool-cases (ltb_ℤ s.start_price g)) [
  | inl above ↦
      let low : price_at s 0 ≤ℤ g = ground (arith, price_at_bounds s 0 v.published) in
      rw above ((λ _. low), (λ u lt. absurd (omega arith)), 0, low)
  | inr x ↦ rw x (elim (Bool-cases (ltb_ℤ g s.floor_price)) [
    | inl under ↦ rw under (λ u. ground (arith, price_at_bounds s u v.published))
    | inr y ↦ rw y (
        let n : ℕ = pos_part s.start_price + neg_part g - (pos_part g + neg_part s.start_price) in
        let fg : s.floor_price ≤ℤ g = ground arith in
        let b : Below s.start_price g n = ground arith in
        rw (drop_needed s.start_price g n b (small s g n v fg b))
          (drop_first s g n v fg b s.kind v.published.descending v.long))
  ])
]

-- `due` is the first instant at which `price` is at or below `target`, which it is at some instant, where
-- `u64_max` may stand for a later one, and `none` stands for never.
abbrev pub IsFirstAt : (Nanos → Price) → Price → Option Nanos → Type 0
IsFirstAt price target (some due) =
    ((u64_max ≤ due) ⊎ (price due ≤ℤ target))
    × ((u : Nanos) → (due ≤ u) ⊎ (target <ℤ price u))
    × (u : Nanos) × (price u ≤ℤ target)
IsFirstAt price target none = (u : Nanos) → target <ℤ price u

Answers-IsFirstAt :
    (price : Nanos → Price) (target : Price) (due : Option Nanos)
    → Answers price target due
    → IsFirstAt price target due
Answers-IsFirstAt price target none a = a
Answers-IsFirstAt price target (some due) (met, early, at, reached) = (
  elim (Bool-cases (ltb due u64_max)) [
    | inl e ↦ inr (met (ground arith))
    | inr e ↦ inl (ground arith)
  ],
  λ u. elim (Bool-cases (ltb u due)) [
    | inl e ↦ inr (early u (ground arith))
    | inr e ↦ inl (ground arith)
  ],
  at,
  reached,
)

-- For a published schedule whose prices and their spread are i64 values, and whose steps take time,
-- `time_to_reach` answers, for every target that the price comes down to at some instant, with the first
-- such instant (an answer of u64::MAX only promises that it is not before), and with `none`, exactly if
-- the price stays above the target for ever.
pub time_to_reach_first :
    (s : PriceSchedule) (target : Price)
    → IsUsual s
    → IsFirstAt (price_at s) target (time_to_reach s target)
time_to_reach_first s target v =
    Answers-IsFirstAt (price_at s) target (time_to_reach s target) (due_first s target v)
