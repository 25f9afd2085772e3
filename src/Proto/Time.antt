-- ===== src/Proto/Time.antt =====
-- crates/auction-proto/src/time.rs: nanoseconds since the auction opened, a u64.
use dutch_auction.Base.{ℕ, ◌-◌, ◌/◌, ◌==◌, if◌then◌else◌}
use dutch_auction.Base.Word.{saturating_mul_u64}

abbrev pub Nanos : Type 0
Nanos = ℕ

unfoldable pub from_millis : ℕ → Nanos
unfolding saturating_mul_u64
from_millis ms = saturating_mul_u64 ms 1_000_000

unfoldable pub from_secs : ℕ → Nanos
unfolding saturating_mul_u64
from_secs s = saturating_mul_u64 s 1_000_000_000

unfoldable pub as_millis : Nanos → ℕ
as_millis t = t / 1_000_000

unfoldable pub as_secs : Nanos → ℕ
as_secs t = t / 1_000_000_000

-- `Nanos::saturating_sub`: the subtraction of ℕ stops at 0 too.
unfoldable pub saturating_sub_nanos : Nanos → Nanos → Nanos
saturating_sub_nanos a b = a - b

-- `Nanos::window_index`: a zero width puts every nanosecond in its own window.
unfoldable pub window_index : Nanos → Nanos → ℕ
window_index t width = if width == 0 then t else t / width
