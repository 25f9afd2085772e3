-- ===== src/Engine/Next.antt =====
-- crates/auction-engine/src/engine.rs, `next`: what the engine does next.
pub mod Waits
use dutch_auction.Base.{ℕ, ◌-◌, none, some, Bool, leb, min, if◌then◌else◌}
use dutch_auction.Proto.Time.{Nanos}
use dutch_auction.Engine.Clock.{deadline}
use dutch_auction.Engine.Time.{clock_now}
use dutch_auction.Engine.Run.{EngineOptions, Submission, Engine}

-- What a look at the ingress queue gives.
pub data Arrival : Type 0 where
  arrived : Submission → Arrival
  nothing_yet : Arrival
  no_sender : Arrival

-- What one round of `next` decides: something to do, or another round after a wait, of at most so many
-- nanoseconds if it parks.
pub data Next : Type 0 where
  work : Submission → Next
  own_tick : Next
  stop : Next
  spin : Next
  park : Nanos → Next

abbrev pub max_park : Nanos
max_park = 100_000_000

-- the wait, with a deadline at `due`
unfoldable pub wait_until : EngineOptions → Nanos → Nanos → Next
wait_until options due now =
    if leb due now
    then own_tick
    else if leb (due - now) options.spin_ahead
    then spin
    else park (min (due - now - options.spin_ahead) max_park)

-- one round of the loop in `next`
unfoldable pub next : Bool → Arrival → ℕ → Engine → Next
unfolding deadline clock_now wait_until
next stopping (arrived sub) at e = work sub
next stopping no_sender at e = stop
next stopping nothing_yet at e = if stopping then stop else (elim (deadline e.state) [
  | none ↦ park max_park
  | some due ↦ wait_until e.options due (clock_now e.clock at)
])
