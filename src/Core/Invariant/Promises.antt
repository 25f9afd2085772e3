-- ===== src/Core/Invariant/Promises.antt =====
-- docs/invariants.md, I1 to I4, of every state that `apply` (crates/auction-core/src/state.rs) reaches.
use dutch_auction.Base.{
  ℕ, ◌+◌, ◌≤◌, ◌<◌, ◌≡◌, ◌⊎◌, refl, ◌∙◌, ap, arith, List, [], ◌∷◌, Option, some, none, All, inl,
  inr, true, min, max, if_cases, ◌==◌,
}
use dutch_auction.Base.Int.{◌≤ℤ◌}
use dutch_auction.Base.Word.{u64_max, saturating_add_u64}
use dutch_auction.Proto.Ids.{Seq, next_seq}
use dutch_auction.Proto.Money.{Price, saturating_add_qty}
use dutch_auction.Proto.Time.{Nanos}
use dutch_auction.Proto.Status.{live, cleared}
use dutch_auction.Core.Schedule.Bounds.{IsPublished, price_at_bounds}
use dutch_auction.Core.Config.{AuctionConfig, price_at, floor_price, start_price}
use dutch_auction.Core.Command.{Command}
use dutch_auction.Core.Event.{Fill}
use dutch_auction.Core.State.{AuctionState, Out, window_bounds, sum_fills, total_filled}
use dutch_auction.Core.Clear.Uniform.{IsAt, units}
use dutch_auction.Core.Apply.{apply, follows}
use dutch_auction.Core.Invariant.{IsClockPrice, IsSettled}
use dutch_auction.Core.Invariant.Reachable.{Reach, Reach-IsSound, apply_inv, apply-Applied}

sum_fills_lem :
    (acc : ℕ) (fs : List Fill) → acc + units fs ≤ u64_max → sum_fills acc fs ≡ acc + units fs
unfolding sum_fills saturating_add_qty saturating_add_u64
sum_fills_lem acc [] h = omega arith
sum_fills_lem acc (f ∷ fs) h =
    let e : min (acc + f.qty) u64_max ≡ acc + f.qty = omega (arith, h) in
    rw e (sum_fills_lem (acc + f.qty) fs (omega (arith, h)) ∙ omega arith)

-- In every state that commands bring a new auction to, for a supply that is a u64, what `total_filled`
-- reports and what remains add up to the supply that the auction was created with.
pub conservation :
    {config : AuctionConfig} {s : AuctionState}
    → config.total_supply ≤ u64_max
    → Reach config s
    → total_filled s + s.supply_remaining ≡ config.total_supply
unfolding total_filled
conservation {config} {s} h r =
    let (v, same) = Reach-IsSound h r in
    let supply : s.config.total_supply ≡ config.total_supply =
      ap (λ (c : AuctionConfig). c.total_supply) same in
    let filled = sum_fills_lem 0 s.fills (omega (arith, v.conserved, v.small)) in
    omega (arith, filled, v.conserved, supply)

settled_price :
    (c : AuctionConfig) (now : Nanos) (p : Option Price) (fills : List Fill)
    → IsSettled c now cleared p fills
    → (q : Price) × (p ≡ some q) × All (IsAt q) fills × IsClockPrice c now q
settled_price c now none fills v = absurd v
settled_price c now (some q) fills v = (q, refl, v.0, v.1)

-- For a supply that is a u64, a reachable state that is cleared has a clearing price; every fill carries that price; and it is a
-- price of the auction's clock, at an instant up to the state's or of the window of such an instant.
pub uniform_price :
    {config : AuctionConfig} {s : AuctionState}
    → config.total_supply ≤ u64_max
    → Reach config s
    → s.status ≡ cleared
    → (p : Price) × (s.clearing_price ≡ some p) × All (IsAt p) s.fills × IsClockPrice config s.now p
uniform_price {config} {s} h r e =
    let (v, same) = Reach-IsSound h r in
    settled_price config s.now s.clearing_price s.fills (rw (e, same) at v.settled)

abbrev InBounds : AuctionConfig → Price → Type 0
InBounds c p = (floor_price c ≤ℤ p) × (p ≤ℤ start_price c)

clock_bounds : (c : AuctionConfig) (t : Nanos) → IsPublished c.schedule → InBounds c (price_at c t)
unfolding price_at floor_price start_price
clock_bounds c t v = price_at_bounds c.schedule t v

window_bounds-InBounds :
    (c : AuctionConfig) (t : Nanos) → IsPublished c.schedule → InBounds c (window_bounds c t).1
unfolding window_bounds
window_bounds-InBounds c t v =
    if_cases (λ (w : ℕ × Price). InBounds c w.1) (c.batch_window == 0) _ _ (λ _. clock_bounds c t v)
      (λ _. clock_bounds c _ v)

-- For a schedule with its floor not above its start and a step or a rate that is not negative, and a
-- supply that is a u64: the price of every fill of a reachable cleared auction lies from the floor
-- to the start.
pub fill_price_bounds :
    {config : AuctionConfig} {s : AuctionState}
    → config.total_supply ≤ u64_max
    → IsPublished config.schedule
    → Reach config s
    → s.status ≡ cleared
    → All (λ (f : Fill). (floor_price config ≤ℤ f.price) × (f.price ≤ℤ start_price config)) s.fills
fill_price_bounds {config} {s} h v r e =
    let (p, _, at, clocked) = uniform_price h r e in
    let (t, _, clock) : IsClockPrice config s.now p = clocked in
    let bounds : InBounds config p = elim clock as (λ _. InBounds config p) [
      | inl e ↦ rw e (clock_bounds config t v)
      | inr e ↦ rw e (window_bounds-InBounds config t v)
    ] in
    spread p bounds s.fills at
  where
    spread :
        (p : Price)
        → InBounds config p
        → (fs : List Fill) → All (IsAt p) fs
        → All (λ (f : Fill). InBounds config f.price) fs
    spread p b [] at = tt
    spread p b (f ∷ fs) (e, at) = ((rw e b), spread p b fs at)

-- A reachable auction that is live and offered something, a supply that is a u64, has supply left: it
-- has not handed out everything without clearing.
pub live_supply :
    {config : AuctionConfig} {s : AuctionState}
    → config.total_supply ≤ u64_max
    → 0 < config.total_supply
    → Reach config s
    → s.status ≡ live
    → 0 < s.supply_remaining
live_supply {config} {s} h some_supply r e =
    let (v, same) = Reach-IsSound h r in v.supplied e (rw same some_supply)

next_of :
    (previous : Option Seq) (seq : Seq)
    → follows previous seq ≡ true
    → (previous ≡ none) ⊎ ((last : Seq) × (previous ≡ some last) × (seq ≡ last + 1))
unfolding follows next_seq
next_of none seq e = inl refl
next_of (some last) seq e = inr (last, refl, ground arith)

-- From a reachable state, for a supply that is a u64, an `apply` that does not panic has a sequence
-- number that is one above the last, if there was a command before; it becomes the last one; and the
-- clock of the state is the later of the old one and the command's instant; the terms are those that
-- the auction was created with.
pub apply_order :
    {config : AuctionConfig} {s : AuctionState} {o : Out} (seq : Seq) (ts : Nanos) (cmd : Command)
    → config.total_supply ≤ u64_max
    → Reach config s
    → apply s seq ts cmd ≡ some o
    → ((s.last_seq ≡ none) ⊎ ((last : Seq) × (s.last_seq ≡ some last) × (seq ≡ last + 1)))
      × (o.state.last_seq ≡ some seq)
      × (o.state.now ≡ max ts s.now)
      × (o.state.config ≡ config)
apply_order {config} {s} {o} seq ts cmd h r e =
    let (v, same) = Reach-IsSound h r in
    let a = apply-Applied s seq ts cmd e v in
    (next_of s.last_seq seq (apply_inv s seq ts cmd e).0, a.last_seq, a.now, a.config ∙ same)
