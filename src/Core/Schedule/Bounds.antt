-- ===== src/Core/Schedule/Bounds.antt =====
-- crates/auction-core/src/schedule.rs: the clock stays within the published bounds and only descends.
use native.Mathlib.Nat.{mul-le-mul_right}
use dutch_auction.Base.{div_mono, min_mono, ℕ, ◌*◌, ◌/◌, ◌≤◌, ◌≡◌, arith, min}
use dutch_auction.Base.Int.{ℤ, pos, negsuc, ◌-ℤ◌, ◌*ℤ◌, ◌≤ℤ◌, -ℤ_parts, quot_ℕ}
use dutch_auction.Base.Word.{
  i64_max, saturate_i64, saturate_i64_mono, try_i64, saturating_sub_i64, saturating_mul_i64,
}
use dutch_auction.Proto.Money.{Price, clamp_to}
use dutch_auction.Proto.Time.{Nanos}
use dutch_auction.Core.Schedule.{
  ScheduleKind, stepped, linear, PriceSchedule, saturating_drop, linear_drop, dropped_price,
  price_at_kind, price_at,
}

-- What `PriceSchedule::stepped` and `PriceSchedule::linear` assert.
abbrev pub IsDescending : ScheduleKind → Type 0
IsDescending (stepped _ step_size) = pos 0 ≤ℤ step_size
IsDescending (linear rate_per_sec) = pos 0 ≤ℤ rate_per_sec

pub record IsPublished (s : PriceSchedule) : Type 0 where
  pub ordered : s.floor_price ≤ℤ s.start_price
  pub descending : IsDescending s.kind

-- The drops, for a step or a rate that is not negative.
pub saturating_drop-pos :
    (n k : ℕ) → saturating_drop n (pos k) ≡ pos (min (min n i64_max * k) i64_max)
unfolding saturating_drop saturating_mul_i64 try_i64
saturating_drop-pos n k = ground arith

pub linear_drop-pos : (t r : ℕ) → linear_drop t (pos r) ≡ pos (min (t * r / 1_000_000_000) i64_max)
unfolding linear_drop try_i64 quot_ℕ ◌*ℤ◌
linear_drop-pos t r = ground arith

clamp_to_bounds :
    (p floor start : Price)
    → floor ≤ℤ start
    → (floor ≤ℤ clamp_to p floor start) × (clamp_to p floor start ≤ℤ start)
unfolding clamp_to
clamp_to_bounds p floor start h = ground arith

clamp_to_mono :
    (p q floor start : Price)
    → floor ≤ℤ start
    → p ≤ℤ q
    → clamp_to p floor start ≤ℤ clamp_to q floor start
unfolding clamp_to
clamp_to_mono p q floor start h k = ground arith

pub dropped_price_bounds :
    (s : PriceSchedule) (d : ℤ)
    → IsPublished s
    → (s.floor_price ≤ℤ dropped_price s d) × (dropped_price s d ≤ℤ s.start_price)
unfolding dropped_price
dropped_price_bounds s d v =
    clamp_to_bounds (saturating_sub_i64 s.start_price d) s.floor_price s.start_price v.ordered

pub dropped_price_antitone :
    (s : PriceSchedule) (d e : ℤ) → IsPublished s → d ≤ℤ e → dropped_price s e ≤ℤ dropped_price s d
unfolding dropped_price saturating_sub_i64
dropped_price_antitone s d e v h =
    clamp_to_mono (saturate_i64 (s.start_price -ℤ e)) (saturate_i64 (s.start_price -ℤ d))
      s.floor_price s.start_price v.ordered
      (saturate_i64_mono (s.start_price -ℤ e) (s.start_price -ℤ d)
        (omega (arith, -ℤ_parts s.start_price e, -ℤ_parts s.start_price d)))

price_at_kind_bounds :
    (k : ScheduleKind) (s : PriceSchedule) (t : Nanos)
    → IsPublished s
    → (s.floor_price ≤ℤ price_at_kind k s t) × (price_at_kind k s t ≤ℤ s.start_price)
unfolding price_at_kind
price_at_kind_bounds (stepped dur size) s t v =
    ground (arith, v.ordered, dropped_price_bounds s (saturating_drop (t / dur) size) v)
price_at_kind_bounds (linear rate) s t v = dropped_price_bounds s (linear_drop t rate) v

-- At every instant the price of a published schedule is at least the floor price and at most the
-- start price.
pub price_at_bounds :
    (s : PriceSchedule) (t : Nanos)
    → IsPublished s
    → (s.floor_price ≤ℤ price_at s t) × (price_at s t ≤ℤ s.start_price)
unfolding price_at
price_at_bounds s t v = price_at_kind_bounds s.kind s t v

saturating_drop_mono :
    (m n : ℕ) (size : ℤ) → pos 0 ≤ℤ size → m ≤ n → saturating_drop m size ≤ℤ saturating_drop n size
saturating_drop_mono m n (pos k) h le =
    rw (saturating_drop-pos m k, saturating_drop-pos n k)
      (omega (arith, mul-le-mul_right k (min_mono m n i64_max le)))
saturating_drop_mono m n (negsuc k) h le = absurd (omega arith)

linear_drop_mono :
    (m n : ℕ) (rate : ℤ) → pos 0 ≤ℤ rate → m ≤ n → linear_drop m rate ≤ℤ linear_drop n rate
linear_drop_mono m n (pos k) h le =
    rw (linear_drop-pos m k, linear_drop-pos n k)
      (omega (arith, div_mono (m * k) (n * k) 1_000_000_000 (mul-le-mul_right k le)))
linear_drop_mono m n (negsuc k) h le = absurd (omega arith)

price_at_kind_antitone :
    (k : ScheduleKind) (s : PriceSchedule) (t u : Nanos)
    → IsDescending k
    → IsPublished s
    → t ≤ u
    → price_at_kind k s u ≤ℤ price_at_kind k s t
unfolding price_at_kind
price_at_kind_antitone (stepped dur size) s t u d v h = ground (
  arith,
  dropped_price_antitone s (saturating_drop (t / dur) size) (saturating_drop (u / dur) size) v,
  saturating_drop_mono (t / dur) (u / dur) size d,
  div_mono t u dur h,
)
price_at_kind_antitone (linear rate) s t u d v h =
    dropped_price_antitone s (linear_drop t rate) (linear_drop u rate) v
      (linear_drop_mono t u rate d h)

-- The price of a published schedule (its floor not above its start, its step or rate not negative)
-- never rises.
pub price_at_antitone :
    (s : PriceSchedule) (t u : Nanos) → IsPublished s → t ≤ u → price_at s u ≤ℤ price_at s t
unfolding price_at
price_at_antitone s t u v h = price_at_kind_antitone s.kind s t u v.descending v h
