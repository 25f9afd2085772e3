-- ===== src/Core/Outcomes/InFlight.antt =====
-- docs/invariants.md, I10, over crates/auction-core/src/state.rs: a bid without a final answer is in
-- the open window or on the ladder, and an auction that has ended has none.
pub mod Answered
pub mod Settled
pub mod Flushed
pub mod Bids
pub mod Withdrawn
pub mod Handled
pub mod Reachable
use dutch_auction.Base.{◌≡◌, false, List, [], ◌∷◌, ◌++◌, Option, none, some, ◌⊎◌, inl, inr, lookup}
use dutch_auction.Proto.Ids.{IdempotencyKey}
use dutch_auction.Proto.Status.{is_terminal}
use dutch_auction.Core.Event.{Outcome}
use dutch_auction.Core.Ladder.{Level, RestingBid}
use dutch_auction.Core.Bid.{PendingBid, OpenWindow}
use dutch_auction.Core.State.{AuctionState}

-- An answer that is not a promise of one: neither queued nor resting.
abbrev pub IsFinal : Option Outcome → Type 0
IsFinal (some (Outcome.queued qty)) = ⊥
IsFinal (some (Outcome.resting qty)) = ⊥
IsFinal _ = Unit

module _ (k : IdempotencyKey) where
  -- One of the bids has the key.
  abbrev pub HasKey : List PendingBid → Type 0
  HasKey [] = ⊥
  HasKey (b ∷ bids) = (b.key ≡ k) ⊎ HasKey bids

  abbrev pub InWindow : Option OpenWindow → Type 0
  InWindow none = ⊥
  InWindow (some w) = HasKey w.bids

  abbrev pub Rests : List RestingBid → Type 0
  Rests [] = ⊥
  Rests (b ∷ bids) = (b.key ≡ k) ⊎ Rests bids

  abbrev pub OnLadder : List Level → Type 0
  OnLadder [] = ⊥
  OnLadder ((p, bids) ∷ rest) = Rests bids ⊎ OnLadder rest

  abbrev pub IsAnswered : AuctionState → Type 0
  IsAnswered s = IsFinal (lookup k s.outcomes)

  -- Answered, or on the ladder: what holds once the window is settled.
  abbrev pub Waits : AuctionState → Type 0
  Waits s = IsAnswered s ⊎ OnLadder s.resting.levels

  -- What holds of every reachable state.
  abbrev pub IsTracked : AuctionState → Type 0
  IsTracked s =
      IsAnswered s
      ⊎ ((is_terminal s.status ≡ false) × (InWindow s.window ⊎ OnLadder s.resting.levels))

  pub Rests-append :
      (front back : List RestingBid) → Rests front ⊎ Rests back → Rests (front ++ back)
  Rests-append [] back (inr r) = r
  Rests-append [] back (inl r) = absurd r
  Rests-append (b ∷ front) back (inl (inl e)) = inl e
  Rests-append (b ∷ front) back (inl (inr r)) = inr (Rests-append front back (inl r))
  Rests-append (b ∷ front) back (inr r) = inr (Rests-append front back (inr r))

  pub HasKey-append :
      (front back : List PendingBid) → HasKey front ⊎ HasKey back → HasKey (front ++ back)
  HasKey-append [] back (inr r) = r
  HasKey-append [] back (inl r) = absurd r
  HasKey-append (b ∷ front) back (inl (inl e)) = inl e
  HasKey-append (b ∷ front) back (inl (inr r)) = inr (HasKey-append front back (inl r))
  HasKey-append (b ∷ front) back (inr r) = inr (HasKey-append front back (inr r))
