-- ===== src/Engine/Next/Waits.antt =====
-- crates/auction-engine/src/engine.rs, `next`: when the engine ticks, and how long it waits.
use dutch_auction.Base.{
  ℕ, ◌+◌, ◌-◌, ◌≤◌, ◌<◌, ◌≡◌, ◌⊎◌, inl, inr, arith, Option, none, some, Bool, true, leb, if_cases,
  option_cases,
}
use dutch_auction.Proto.Time.{Nanos}
use dutch_auction.Engine.Clock.{deadline}
use dutch_auction.Engine.Time.{clock_now}
use dutch_auction.Engine.Run.{EngineOptions, Engine}
use dutch_auction.Engine.Next.{
  nothing_yet, Next, work, own_tick, stop, spin, park, max_park, wait_until, next,
}

-- What a decision says of the deadline and the clock.
abbrev pub IsTimely : Bool → Option Nanos → Nanos → Nanos → Next → Type 0
IsTimely stopping due ahead now (work submission) = ⊥
IsTimely stopping due ahead now own_tick = (t : Nanos) × (due ≡ some t) × (t ≤ now)
IsTimely stopping due ahead now stop = stopping ≡ true
IsTimely stopping due ahead now spin = (t : Nanos) × (due ≡ some t) × (now < t) × (t ≤ now + ahead)
IsTimely stopping due ahead now (park d) =
    (d ≤ max_park) × ((due ≡ none) ⊎ ((t : Nanos) × (due ≡ some t) × (now + d + ahead ≤ t)))

wait_until-IsTimely :
    (stopping : Bool) (options : EngineOptions) (due : Option Nanos) (t now : Nanos)
    → due ≡ some t
    → IsTimely stopping due options.spin_ahead now (wait_until options t now)
unfolding wait_until
wait_until-IsTimely stopping options due t now e =
    if_cases (IsTimely stopping due options.spin_ahead now) (leb t now) _ _
      (λ past. (t, e, ground arith))
      (λ ahead.
        if_cases (IsTimely stopping due options.spin_ahead now) (leb (t - now) options.spin_ahead) _
          _ (λ close. (t, e, ground arith, ground arith))
          (λ far. (omega arith, inr (t, e, ground arith))))

-- With nothing arrived, the engine stops only if it was told to; it ticks only when its deadline has
-- come; it spins only when the deadline is within the spinning distance; and it parks for no longer
-- than the bound, and never into the spinning distance before its deadline.
pub next-IsTimely :
    (stopping : Bool) (at : ℕ) (e : Engine)
    → IsTimely stopping
        (deadline e.state)
        e.options.spin_ahead
        (clock_now e.clock at)
        (next stopping nothing_yet at e)
unfolding next
next-IsTimely stopping at e =
    let P : Next → Type 0 =
      IsTimely stopping (deadline e.state) e.options.spin_ahead (clock_now e.clock at) in
    if_cases P stopping _ _ (λ told. told)
      (λ _.
        option_cases P (deadline e.state) (park max_park)
          (λ due. wait_until e.options due (clock_now e.clock at)) (λ idle. (omega arith, inl idle))
          (λ due here.
            wait_until-IsTimely stopping e.options (deadline e.state) due (clock_now e.clock at)
              here))
