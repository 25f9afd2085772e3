-- ===== src/Base/Word.antt =====
-- Machine integers: u64 as numbers, i64 as integers, with the saturating and checked operations.
use dutch_auction.Base.{
  ℕ, ◌+◌, ◌-◌, ◌*◌, ◌%◌, ◌^◌, ◌≤◌, ◌≡◌, Option, none, some, arith, leb, min, if◌then◌else◌,
}
use dutch_auction.Base.Int.{ℤ, pos, negsuc, pos_part, neg_part, ◌+ℤ◌, ◌-ℤ◌, ◌*ℤ◌, ◌≤ℤ◌}

-- `u64::MAX`
abbrev pub u64_max : ℕ
u64_max = 2 ^ 64 - 1

-- `i64::MAX`; `i64::MIN` is `negsuc i64_max`
abbrev pub i64_max : ℕ
i64_max = 2 ^ 63 - 1

-- the release build's `+ 1` on a u64
abbrev pub wrap_u64 : ℕ → ℕ
wrap_u64 n = n % 2 ^ 64

-- `u64::saturating_add`
unfoldable pub saturating_add_u64 : ℕ → ℕ → ℕ
saturating_add_u64 a b = min (a + b) u64_max

-- `u64::saturating_mul`
unfoldable pub saturating_mul_u64 : ℕ → ℕ → ℕ
saturating_mul_u64 a b = min (a * b) u64_max

-- An exact result, brought into the range of i64.
unfoldable pub saturate_i64 : ℤ → ℤ
saturate_i64 (pos n) = pos (min n i64_max)
saturate_i64 (negsuc n) = negsuc (min n i64_max)

-- `i64::try_from`
unfoldable pub try_i64 : ℤ → Option ℤ
try_i64 (pos n) = if leb n i64_max then some (pos n) else none
try_i64 (negsuc n) = if leb n i64_max then some (negsuc n) else none

-- `u64::try_from`
unfoldable pub try_u64 : ℤ → Option ℕ
try_u64 (pos n) = if leb n u64_max then some n else none
try_u64 (negsuc n) = none

-- `unwrap_or`
abbrev pub unwrap_or {ℓ} : {A : Type ℓ} → Option A → A → A
unwrap_or none d = d
unwrap_or (some a) d = a

-- `i64::saturating_sub`
unfoldable pub saturating_sub_i64 : ℤ → ℤ → ℤ
unfolding ◌-ℤ◌ saturate_i64
saturating_sub_i64 a b = saturate_i64 (a -ℤ b)

-- `i64::saturating_add`
unfoldable pub saturating_add_i64 : ℤ → ℤ → ℤ
unfolding ◌+ℤ◌ saturate_i64
saturating_add_i64 a b = saturate_i64 (a +ℤ b)

-- `i64::saturating_mul`
unfoldable pub saturating_mul_i64 : ℤ → ℤ → ℤ
unfolding ◌*ℤ◌ saturate_i64
saturating_mul_i64 a b = saturate_i64 (a *ℤ b)

-- `i64::checked_mul`
unfoldable pub checked_mul_i64 : ℤ → ℤ → Option ℤ
unfolding ◌*ℤ◌ try_i64
checked_mul_i64 a b = try_i64 (a *ℤ b)

-- `i64::unsigned_abs`
unfoldable pub unsigned_abs : ℤ → ℕ
unsigned_abs a = pos_part a + neg_part a

-- A value of the type i64.
abbrev pub IsI64 : ℤ → Type 0
IsI64 a = (pos_part a ≤ i64_max) × (neg_part a ≤ i64_max + 1)

pub saturate_i64-IsI64 : (a : ℤ) → IsI64 (saturate_i64 a)
unfolding saturate_i64
saturate_i64-IsI64 (pos n) = omega arith
saturate_i64-IsI64 (negsuc n) = omega arith

-- Saturation changes nothing inside the range.
pub saturate_i64_id : (a : ℤ) → IsI64 a → saturate_i64 a ≡ a
unfolding saturate_i64
saturate_i64_id (pos n) h = ground arith
saturate_i64_id (negsuc n) h = ground arith

-- Saturation keeps the order.
pub saturate_i64_mono : (a b : ℤ) → a ≤ℤ b → saturate_i64 a ≤ℤ saturate_i64 b
unfolding saturate_i64
saturate_i64_mono (pos m) (pos n) h = omega arith
saturate_i64_mono (pos m) (negsuc n) h = omega arith
saturate_i64_mono (negsuc m) (pos n) h = omega arith
saturate_i64_mono (negsuc m) (negsuc n) h = omega arith
