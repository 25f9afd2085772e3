-- ===== src/Proto/Money.antt =====
-- crates/auction-proto/src/money.rs: prices are i64 minor units, quantities u64 units.
use dutch_auction.Base.{ℕ, ◌-◌, Bool, Option, none, leb, ◌==◌, if◌then◌else◌, min}
use dutch_auction.Base.Int.{ℤ, pos, ltb_ℤ, ◌-ℤ◌}
use dutch_auction.Base.Word.{i64_max, checked_mul_i64, saturating_add_u64, unsigned_abs}

abbrev pub Price : Type 0
Price = ℤ

abbrev pub Qty : Type 0
Qty = ℕ

-- `Price::checked_mul_qty`: `none` on overflow.
unfoldable pub checked_mul_qty : Price → Qty → Option ℤ
unfolding checked_mul_i64
checked_mul_qty p q = if leb q i64_max then checked_mul_i64 p (pos q) else none

-- `Price::clamp_to`; i64::clamp wants floor <= start, which a published schedule has.
unfoldable pub clamp_to : Price → Price → Price → Price
clamp_to p floor start = if ltb_ℤ p floor then floor else if ltb_ℤ start p then start else p

-- `Price::abs_diff`
unfoldable pub abs_diff : Price → Price → ℕ
unfolding ◌-ℤ◌ unsigned_abs
abs_diff a b = unsigned_abs (a -ℤ b)

unfoldable pub is_zero : Qty → Bool
is_zero q = q == 0

-- `Qty::min_with`
unfoldable pub min_with : Qty → Qty → Qty
min_with q available = min q available

-- `Qty::saturating_sub`: the subtraction of ℕ stops at 0 too.
unfoldable pub saturating_sub_qty : Qty → Qty → Qty
saturating_sub_qty a b = a - b

-- `Qty::saturating_add`
unfoldable pub saturating_add_qty : Qty → Qty → Qty
unfolding saturating_add_u64
saturating_add_qty a b = saturating_add_u64 a b
