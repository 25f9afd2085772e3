-- ===== src/Core/Backing/Charged.antt =====
-- crates/auction-core/src/state.rs: what a window charges is at most what its bids were reserved at, and
-- repricing to a later window or to the floor lowers what was paid.
use dutch_auction.Base.{ℕ, ◌≤◌, ◌≡◌, arith, false, All, All-mono, Option, none, some, List, [], ◌∷◌}
use dutch_auction.Base.Int.{pos_part, neg_part, ◌≤ℤ◌}
use dutch_auction.Base.Word.{i64_max, u64_max}
use dutch_auction.Proto.Ids.{ParticipantId}
use dutch_auction.Proto.Money.{Price}
use dutch_auction.Proto.Time.{Nanos}
use dutch_auction.Proto.Status.{is_terminal}
use dutch_auction.Core.Config.{AuctionConfig}
use dutch_auction.Core.Event.{Fill}
use dutch_auction.Core.Bid.{PendingBid, OpenWindow}
use dutch_auction.Core.State.{AuctionState, window_bounds}
use dutch_auction.Core.Backing.{BidFit, FillFit}
use dutch_auction.Core.Backing.Cleared.{IsAbove}
use dutch_auction.Core.Backing.Prices.{IsFair}
use dutch_auction.Core.Backing.Flushed.{IsBackedWindow}
use dutch_auction.Core.Backing.Bids.{fills_high}
use dutch_auction.Core.Backing.Reachable.{FairReach, FairReach-IsKept}

parts_above : (low high : Price) → pos_part low ≤ pos_part high → neg_part high ≡ 0 → low ≤ℤ high
parts_above low high h e = omega arith

-- No bid in the window was reserved below the price of the window.
abbrev pub IsCovered : Option OpenWindow → Type 0
IsCovered none = Unit
IsCovered (some w) = All (λ (b : PendingBid). w.price ≤ℤ b.reserve_price) w.bids

window-IsCovered :
    (c : AuctionConfig) (now : Nanos) (fills : List Fill) (w : Option OpenWindow)
    → IsBackedWindow c now fills w
    → IsCovered w
window-IsCovered c now fills none v = tt
window-IsCovered c now fills (some w) v =
    All-mono (BidFit w.price) (λ (b : PendingBid). w.price ≤ℤ b.reserve_price) w.bids
      (λ b h. parts_above w.price b.reserve_price h.1 h.0.signless) v.1

-- The terms are published, the floor is not negative, and the supply is one that a u64 holds. In every
-- state that commands bring the new auction to, at instants that a u64 holds, when no bid rests at a
-- negative limit and no limit posted for one participant is over a cap that an i64 holds, and in which
-- the auction has not ended: every bid in the open window was reserved at the price of the window or
-- above, and no fill is at a price below that of the present window.
pub never_overcharged :
    {config : AuctionConfig} {s : AuctionState} (p : ParticipantId) (cap : ℕ)
    → cap ≤ i64_max
    → config.total_supply ≤ u64_max
    → IsFair config
    → FairReach config p cap s
    → is_terminal s.status ≡ false
    → IsCovered s.window × All (λ (f : Fill). (window_bounds s.config s.now).1 ≤ℤ f.price) s.fills
never_overcharged {config} {s} p cap big supply fair r going =
    let v = (FairReach-IsKept p cap big supply fair r).backed in
    let price : Price = (window_bounds s.config s.now).1 in
    (
      window-IsCovered s.config s.now s.fills s.window v.windowed,
      above price s.fills (fills_high s going v.high) v.ledger.fills_fit,
    )
  where
    above :
        (price : Price) (fills : List Fill)
        → All (IsAbove price) fills
        → All FillFit fills
        → All (λ (f : Fill). price ≤ℤ f.price) fills
    above price [] h k = tt
    above price (f ∷ fills) (h, hs) (k, ks) =
        (parts_above price f.price h k.0.signless, above price fills hs ks)
