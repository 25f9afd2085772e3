-- ===== src/Engine/Time.antt =====
-- crates/auction-engine/src/clock.rs, `Clock`. An instant of the machine's monotonic clock is a number
-- of nanoseconds, which the functions that read that clock take. Whether an origin before zero can be
-- represented is the platform's matter, so what the subtraction answers is an argument.
use dutch_auction.Base.{ℕ, ◌+◌, ◌-◌, ◌≤◌, ◌≡◌, arith, min, Option, none, some, option_cases}
use dutch_auction.Base.Int.{ℤ, pos, pos_part, neg_part}
use dutch_auction.Base.Word.{u64_max}
use dutch_auction.Proto.Time.{Nanos}

pub record Clock : Type 0 where
  pub origin : ℤ

-- `Clock::start`, at an instant
unfoldable pub start_clock : ℕ → Clock
start_clock at = record { origin = pos at }

-- `Clock::resume`, at an instant; `minus` is what `Instant - Duration` answers, and `none` its panic
unfoldable pub resume_clock : (ℕ → ℕ → Option ℤ) → Nanos → ℕ → Option Clock
resume_clock minus elapsed at = elim (minus at elapsed) [
  | none ↦ none
  | some origin ↦ some (record { origin = origin })
]

-- `Clock::now`, at an instant; an instant before the origin counts as the origin
unfoldable pub clock_now : Clock → ℕ → Nanos
clock_now c at = min (at + neg_part c.origin - pos_part c.origin) u64_max

-- The documented difference of an instant and a duration, where there is one.
abbrev pub IsDifference : (ℕ → ℕ → Option ℤ) → Type 0
IsDifference minus =
    (at elapsed : ℕ) (origin : ℤ)
    → minus at elapsed ≡ some origin
    → pos_part origin + elapsed ≡ at + neg_part origin

-- What a clock resumed at an auction time and an instant should read later, or, if there is none, why.
abbrev pub Resumes : (ℕ → ℕ → Option ℤ) → ℕ → ℕ → ℕ → ℕ → Option Clock → Type 0
Resumes minus elapsed at later latest none = minus at elapsed ≡ none
Resumes minus elapsed at later latest (some c) =
    (clock_now c later ≡ min (elapsed + (later - at)) u64_max)
    × (elapsed ≤ clock_now c later)
    × (clock_now c later ≤ clock_now c latest)

-- Where the subtraction of a duration from an instant is exact when it does not panic: resuming a clock
-- panics only if that subtraction does, and a clock resumed at some auction time goes on from that time
-- with the machine's clock, up to the largest instant, so that it never reads less than before.
pub resumed_clock :
    (minus : ℕ → ℕ → Option ℤ) (elapsed at later latest : ℕ)
    → IsDifference minus
    → elapsed ≤ u64_max
    → at ≤ later
    → later ≤ latest
    → Resumes minus elapsed at later latest (resume_clock minus elapsed at)
unfolding clock_now resume_clock
resumed_clock minus elapsed at later latest exact h k l =
    option_cases (Resumes minus elapsed at later latest) (minus at elapsed) none
      (λ origin. some (record { origin = origin })) (λ e. e)
      (λ origin e.
        let d = exact at elapsed origin e in
        (ground (arith, d), ground (arith, d), ground (arith, d)))
