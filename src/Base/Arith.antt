-- ===== src/Base/Arith.antt =====
-- Facts about products, quotients and minima of numbers.
use Prim.Native.Nat.{ℕ, zero, suc, ◌+◌, ◌-◌, ◌*◌, ◌/◌, ◌≤◌, ◌<◌, min}
use mathlib.Core.Path.{◌≡◌}
use native.Mathlib.Nat.{
  div-zero, le-div_iff_mul-le, div-mul-le_self, mul-le-mul_right, le_trans, div-lt_iff_lt-mul,
  lt-div-mul-add, le-mul_of_pos_right,
}
use native.Mathlib.Decide.{dec_le}
use native.Mathlib.Omega.{arith}

pub min_mono : (m n k : ℕ) → m ≤ n → min m k ≤ min n k
min_mono m n k h = omega arith

pub div_mono : (m n d : ℕ) → m ≤ n → m / d ≤ n / d
div_mono m n zero h = rw (div-zero m, div-zero n) (omega arith)
div_mono m n (suc d) h =
    (le-div_iff_mul-le {k = suc d} (omega arith)).1 (le_trans (div-mul-le_self m (suc d)) h)

pub le_div : (q n d : ℕ) → 0 < d → q * d ≤ n → q ≤ n / d
le_div q n d h le = (le-div_iff_mul-le h).1 le

pub div_lt : (q n d : ℕ) → 0 < d → n < q * d → n / d < q
div_lt q n d h lt = (div-lt_iff_lt-mul h).1 lt

-- Ceiling division reaches the numerator, and one less does not.
pub ceil_reaches : (n d : ℕ) → 0 < d → n ≤ (n + d - 1) / d * d
ceil_reaches n d h = omega (arith, lt-div-mul-add {a = n + d - 1} h)

pub ceil_least : (n d q : ℕ) → 0 < d → q < (n + d - 1) / d → q * d < n
ceil_least n d q h lt = omega (arith, mul-le-mul_right d lt, div-mul-le_self (n + d - 1) d)

-- An inner saturation is absorbed by the outer one.
pub min_mul : (q d m : ℕ) → 1 ≤ d → min (min q m * d) m ≡ min (q * d) m
min_mul q d m h = elim (dec_le q m) [
  | yes p ↦ rw (min_left q m p)
  | no p ↦
      rw (min_right q m (omega arith))
        (omega (arith, le-mul_of_pos_right m h, mul-le-mul_right d (le_of_not q m p)))
]
  where
    min_left : (a b : ℕ) → a ≤ b → min a b ≡ a
    min_left a b h = omega arith

    min_right : (a b : ℕ) → b ≤ a → min a b ≡ b
    min_right a b h = omega arith

    le_of_not : (a b : ℕ) → ¬ (a ≤ b) → b ≤ a
    le_of_not a b h = omega arith
