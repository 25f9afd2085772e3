-- ===== src/Core/Invariant.antt =====
-- The invariant of an auction: docs/invariants.md I1, I2 and I3, over crates/auction-core/src/state.rs.
pub mod Flush
pub mod Bids
pub mod Handlers
pub mod Clock
pub mod Reachable
pub mod Promises
pub mod Rested
use dutch_auction.Base.{
  ℕ, ◌+◌, ◌≤◌, ◌<◌, ◌≡◌, refl, sym, arith, List, [], Option, some, none, All, ◌⊎◌, inl, inr, ◌∙◌,
}
use dutch_auction.Base.Word.{u64_max}
use dutch_auction.Proto.Money.{Price, Qty}
use dutch_auction.Proto.Time.{Nanos}
use dutch_auction.Proto.Status.{Status, pending, live, cleared, cancelled}
use dutch_auction.Core.Config.{AuctionConfig, price_at}
use dutch_auction.Core.Event.{Fill}
use dutch_auction.Core.Bid.{OpenWindow}
use dutch_auction.Core.State.{AuctionState, window_bounds}
use dutch_auction.Core.State.Terms.{SameFills}
use dutch_auction.Core.Clear.Uniform.{IsAt, units, ClearedAt}

-- `p` is a price that the clock has produced by `now`: the price at an instant, or the price of the
-- window of an instant.
abbrev pub IsClockPrice : AuctionConfig → Nanos → Price → Type 0
IsClockPrice c now p = (t : Nanos) × (t ≤ now) × ((p ≡ price_at c t) ⊎ (p ≡ (window_bounds c t).1))

-- A cleared auction has one price, which the clock has produced; any other has no clearing price.
abbrev pub IsSettled : AuctionConfig → Nanos → Status → Option Price → List Fill → Type 0
IsSettled c now pending p fills = p ≡ none
IsSettled c now live p fills = p ≡ none
IsSettled c now cancelled p fills = p ≡ none
IsSettled c now cleared none fills = ⊥
IsSettled c now cleared (some p) fills = All (IsAt p) fills × IsClockPrice c now p

-- An open window has the index and the price of an instant that has come.
abbrev pub IsWindowed : AuctionConfig → Nanos → Option OpenWindow → Type 0
IsWindowed c now none = Unit
IsWindowed c now (some w) =
    (t : Nanos) × (t ≤ now) × (w.index ≡ (window_bounds c t).0) × (w.price ≡ (window_bounds c t).1)

pub record IsSound (s : AuctionState) : Type 0 where
  -- the supply is a u64
  pub small : s.config.total_supply ≤ u64_max
  -- I1: what is filled and what remains is the supply
  pub conserved : units s.fills + s.supply_remaining ≡ s.config.total_supply
  -- I2 and I3
  pub settled : IsSettled s.config s.now s.status s.clearing_price s.fills
  pub windowed : IsWindowed s.config s.now s.window
  -- a live auction that offered anything has something left
  pub supplied : s.status ≡ live → 0 < s.config.total_supply → 0 < s.supply_remaining
  -- nothing is filled before the auction opens
  pub untouched : s.status ≡ pending → s.fills ≡ []

pub IsSound-SameFills : {s t : AuctionState} → SameFills s t → IsSound s → IsSound t
IsSound-SameFills {s} {t} same v = record {
  small = ground arith;
  conserved = ground arith;
  settled = rw (same.config, same.now, same.status, same.clearing_price, same.fills) v.settled;
  windowed = rw (same.config, same.now, same.window) v.windowed;
  supplied = ground arith;
  untouched = λ e. same.fills ∙ v.untouched (sym same.status ∙ e);
}

-- Clearing at a price of the clock makes a sound auction of a conserved one.
pub IsSound-ClearedAt :
    {p : Price} {s t : AuctionState}
    → ClearedAt p s t
    → s.config.total_supply ≤ u64_max
    → units s.fills + s.supply_remaining ≡ s.config.total_supply
    → IsWindowed s.config s.now s.window
    → IsClockPrice s.config s.now p
    → IsSound t
IsSound-ClearedAt {p} {s} {t} c small conserved windowed clock = record {
  small = ground arith;
  conserved = ground arith;
  settled = rw (c.config, c.now, c.status, c.clearing_price) (c.uniform, clock);
  windowed = rw (c.config, c.now, c.window) windowed;
  supplied = λ e h. absurd (not_live (sym c.status ∙ e));
  untouched = λ e. absurd (not_pending (sym c.status ∙ e));
}
  where
    not_live : ¬ (cleared ≡ live)
    not_live e = cc

    not_pending : ¬ (cleared ≡ pending)
    not_pending e = cc
