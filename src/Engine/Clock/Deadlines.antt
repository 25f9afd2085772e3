-- ===== src/Engine/Clock/Deadlines.antt =====
-- crates/auction-engine: the deadlines that the engine keeps for an auction.
use native.Mathlib.Nat.{div-mul-le_self, lt-div-mul-add, div-le_self}
use dutch_auction.Base.{
  sym, length, ℕ, ◌+◌, ◌*◌, ◌/◌, ◌≤◌, ◌<◌, ◌≡◌, refl, ap, arith, List, [], ◌∷◌, Option, none, some,
  max, min, ◌==◌, if◌then◌else◌, false, All, All-mono, ◌⊎◌, inl, inr, subst, leb, Bool-cases,
}
use dutch_auction.Base.Int.{◌≤ℤ◌}
use dutch_auction.Base.Word.{u64_max, saturating_add_u64, saturating_mul_u64}
use dutch_auction.Proto.Time.{Nanos, window_index}
use dutch_auction.Proto.Status.{Status, accepts_bids}
use dutch_auction.Proto.Money.{Price}
use dutch_auction.Core.Schedule.{price_at, time_to_reach}
use dutch_auction.Core.Schedule.Reach.{IsUsual, IsFirstAt, time_to_reach_first}
use dutch_auction.Core.Config.{floor_price}
use dutch_auction.Core.Ladder.{Level, last_price, next_trigger}
use dutch_auction.Core.Ladder.Drain.{IsAscending}
use dutch_auction.Core.Bid.{OpenWindow}
use dutch_auction.Core.State.{AuctionState, open_window}
use dutch_auction.Engine.Clock.{
  window_close, window_due, trigger_due, floor_due, earliest, deadline,
}

-- The deadline of the window of an instant, for a width above zero whose sum with the instant is a
-- u64, is the end of that window: the one multiple of the width that lies after the instant, and by at
-- most the width.
pub window_close_after :
    (now width : Nanos)
    → 0 < width
    → now + width ≤ u64_max
    → (due k : ℕ) × (window_close now width ≡ some due)
      × (due ≡ k * width)
      × (now < due)
      × (due ≤ now + width)
unfolding window_close window_index saturating_mul_u64 saturating_add_u64
window_close_after now width pos fits =
    let q : ℕ = now / width in
    let low : q * width ≤ now = div-mul-le_self now width in
    let high : now < q * width + width = lt-div-mul-add pos in
    let small : q ≤ now = div-le_self now width in
    let on : (width == 0) ≡ false = ground arith in
    let one : min (q + 1) u64_max ≡ q + 1 = omega arith in
    let product : (q + 1) * width ≡ q * width + width = omega arith in
    (
      q * width + width,
      q + 1,
      rw on (rw (one, product) (ap some (omega arith))),
      omega arith,
      high,
      omega arith,
    )

-- An instant that is asked for comes no earlier than `due`, unless it is past.
abbrev pub IsNotBefore : Nanos → Nanos → Option Nanos → Type 0
IsNotBefore now due none = Unit
IsNotBefore now due (some t) = due ≤ max t now

IsNotBefore-earlier :
    (now u due : Nanos) → due ≤ u → (o : Option Nanos) → IsNotBefore now u o → IsNotBefore now due o
IsNotBefore-earlier now u due h none v = tt
IsNotBefore-earlier now u due h (some t) v = omega arith

-- `due` is one of the instants that are asked for, or `now` for one that is past.
abbrev pub IsOneOf : Nanos → Nanos → List (Option Nanos) → Type 0
IsOneOf now due [] = ⊥
IsOneOf now due (o ∷ sources) =
    ((t : Nanos) × (o ≡ some t) × (due ≡ max t now)) ⊎ IsOneOf now due sources

-- The earliest of the instants that are asked for, where one is.
abbrev pub IsEarliest : Nanos → List (Option Nanos) → Option Nanos → Type 0
IsEarliest now sources none = All (λ (o : Option Nanos). o ≡ none) sources
IsEarliest now sources (some due) =
    (now ≤ due) × All (IsNotBefore now due) sources × IsOneOf now due sources

-- The deadline of an auction of this status.
abbrev pub IsDeadline : Status → Nanos → List (Option Nanos) → Option Nanos → Type 0
IsDeadline Status.live now sources due = IsEarliest now sources due
IsDeadline Status.pending now sources due = due ≡ none
IsDeadline Status.cleared now sources due = due ≡ none
IsDeadline Status.cancelled now sources due = due ≡ none

IsNotBefore-none : (now due : Nanos) (o : Option Nanos) → o ≡ none → IsNotBefore now due o
IsNotBefore-none now due o e = rw e tt

earliest-IsEarliest :
    (now : Nanos) (sources : List (Option Nanos)) → IsEarliest now sources (earliest now sources)
unfolding earliest
earliest-IsEarliest now [] = tt
earliest-IsEarliest now (none ∷ sources) =
    skipped (earliest now sources) (earliest-IsEarliest now sources)
  where
    skipped :
        (least : Option Nanos)
        → IsEarliest now sources least
        → IsEarliest now (none ∷ sources) least
    skipped none v = (refl, v)
    skipped (some due) (low, first, one) = (low, (tt, first), inr one)
earliest-IsEarliest now (some t ∷ sources) =
    joined (earliest now sources) (earliest-IsEarliest now sources)
  where
    joined :
        (least : Option Nanos)
        → IsEarliest now sources least
        → IsEarliest now (some t ∷ sources) (elim least as (λ _. Option Nanos) [
          | none ↦ some (max t now)
          | some u ↦ some (min (max t now) u)
        ])
    joined none silent = (
      omega arith,
      (
        omega arith,
        All-mono (λ (o : Option Nanos). o ≡ none) (IsNotBefore now (max t now)) sources
            (IsNotBefore-none now (max t now)) silent,
      ),
      inl (t, refl, refl),
    )
    joined (some u) (low, first, one) = (
      omega arith,
      (
        omega arith,
        All-mono (IsNotBefore now u) (IsNotBefore now (min (max t now) u)) sources
            (IsNotBefore-earlier now u (min (max t now) u) (omega arith)) first,
      ),
      elim (Bool-cases (leb (max t now) u)) [
        | inl e ↦ inl (t, refl, ground arith)
        | inr e ↦
            let same : u ≡ min (max t now) u = ground arith in
            inr (subst (λ due. IsOneOf now due sources) same one)
      ],
    )

-- The end of the window of an instant, for a width above zero.
abbrev pub IsWindowEnd : Nanos → Nanos → Option Nanos → Type 0
IsWindowEnd now width none = width ≡ 0
IsWindowEnd now width (some due) = (k : ℕ) × (due ≡ k * width) × (now < due) × (due ≤ now + width)

-- The end of the window that is open, if one is.
abbrev pub IsWindowDue : Option OpenWindow → Nanos → Nanos → Option Nanos → Type 0
IsWindowDue none now width due = due ≡ none
IsWindowDue (some w) now width due = IsWindowEnd now width due

abbrev pub HasPrice : Price → List Level → Type 0
HasPrice p [] = ⊥
HasPrice p (l ∷ levels) = (l.0 ≡ p) ⊎ HasPrice p levels

-- The first instant at which a clock is at or below the highest limit, if there is one.
abbrev pub IsTriggerDue : List Level → (Nanos → Price) → Option Nanos → Type 0
IsTriggerDue [] price due = due ≡ none
IsTriggerDue (l ∷ levels) price due =
    (top : Price) × HasPrice top (l ∷ levels)
    × All (λ (m : Level). m.0 ≤ℤ top) (l ∷ levels)
    × IsFirstAt price top due

window_close-IsWindowEnd :
    (now width : Nanos) → now + width ≤ u64_max → IsWindowEnd now width (window_close now width)
unfolding window_close
window_close-IsWindowEnd now width fits = elim (Bool-cases (width == 0)) [
  | inl e ↦ rw e (ground arith)
  | inr e ↦
      let (due, k, closing, multiple, after, within) =
        window_close_after now width (ground arith) fits in
      subst (IsWindowEnd now width) (sym closing) (k, multiple, after, within)
]

window_due-IsWindowDue :
    (s : AuctionState)
    → s.now + s.config.batch_window ≤ u64_max
    → IsWindowDue s.window s.now s.config.batch_window (window_due s)
unfolding window_due open_window
window_due-IsWindowDue s fits = of_window s.window
  where
    of_window :
        (w : Option OpenWindow)
        → IsWindowDue w s.now s.config.batch_window
            (elim (elim w as (λ _. Option (ℕ × ℕ)) [
              | none ↦ none
              | some o ↦ some (o.index, length o.bids)
            ])
              as (λ _. Option Nanos) [
                | none ↦ none
                | some _ ↦ window_close s.now s.config.batch_window
              ])
    of_window none = refl
    of_window (some w) = window_close-IsWindowEnd s.now s.config.batch_window fits

-- The last price of ascending levels is the highest.
last_price_lem :
    (l : Level) (levels : List Level)
    → IsAscending (l ∷ levels)
    → (top : Price) × (last_price (l ∷ levels) ≡ some top)
      × HasPrice top (l ∷ levels)
      × All (λ (m : Level). m.0 ≤ℤ top) (l ∷ levels)
unfolding last_price
last_price_lem l [] up = (l.0, refl, inl refl, (omega arith, tt))
last_price_lem l (m ∷ levels) ((low, _), up) =
    let (top, e, has, all) = last_price_lem m levels up in
    (top, e, inr has, (omega (arith, low, all.0), all))

trigger_due-IsTriggerDue :
    (s : AuctionState)
    → IsUsual s.config.schedule
    → IsAscending s.resting.levels
    → IsTriggerDue s.resting.levels (price_at s.config.schedule) (trigger_due s)
unfolding trigger_due next_trigger last_price
trigger_due-IsTriggerDue s usual up = of_levels s.resting.levels up
  where
    of_levels :
        (levels : List Level)
        → IsAscending levels
        → IsTriggerDue levels
            (price_at s.config.schedule)
            (elim (last_price levels) as (λ _. Option Nanos) [
              | none ↦ none
              | some limit ↦ time_to_reach s.config.schedule limit
            ])
    of_levels [] up = refl
    of_levels (l ∷ levels) up =
        let (top, e, has, all) = last_price_lem l levels up in
        (
          top,
          has,
          all,
          subst
              (λ (o : Option Price).
                IsFirstAt (price_at s.config.schedule) top (elim o as (λ _. Option Nanos) [
                  | none ↦ none
                  | some limit ↦ time_to_reach s.config.schedule limit
                ]))
              (sym e) (time_to_reach_first s.config.schedule top usual),
        )

-- For a published schedule whose prices and their spread are i64 values, and whose steps take time, a
-- ladder whose limits ascend, and an instant whose sum with the width of a window is a u64: there are a
-- window's end, if a window is open and has a width, the first instant at which the clock is at or
-- below the highest resting limit, if a bid rests and the clock comes that low, and the first at which
-- it is at or below the floor price, if it comes that low (an instant of u64::MAX only promises that it
-- is not before). The deadline of a live auction is the earliest of them, with the instant of the state
-- in place of one that has passed, and there is none only if there are none of them. An auction of any
-- other status has no deadline.
pub deadline_earliest :
    (s : AuctionState)
    → IsUsual s.config.schedule
    → IsAscending s.resting.levels
    → s.now + s.config.batch_window ≤ u64_max
    → (closing trigger floor : Option Nanos) × IsWindowDue s.window s.now s.config.batch_window
        closing
      × IsTriggerDue s.resting.levels (price_at s.config.schedule) trigger
      × IsFirstAt (price_at s.config.schedule) s.config.schedule.floor_price floor
      × IsDeadline s.status s.now (closing ∷ trigger ∷ floor ∷ []) (deadline s)
unfolding deadline accepts_bids floor_due floor_price
deadline_earliest s usual up fits = (
  window_due s,
  trigger_due s,
  floor_due s,
  window_due-IsWindowDue s fits,
  trigger_due-IsTriggerDue s usual up,
  time_to_reach_first s.config.schedule s.config.schedule.floor_price usual,
  of_status s.status,
)
  where
    sources : List (Option Nanos)
    sources = window_due s ∷ trigger_due s ∷ floor_due s ∷ []

    of_status :
        (st : Status)
        → IsDeadline st s.now sources (if accepts_bids st then earliest s.now sources else none)
    of_status Status.live = earliest-IsEarliest s.now sources
    of_status Status.pending = refl
    of_status Status.cleared = refl
    of_status Status.cancelled = refl
