-- ===== src/Core/Backing/Bids.antt =====
-- crates/auction-core/src/state.rs: a bid is admitted only if the collateral backs it.
use dutch_auction.Base.{
  ℕ, ◌+◌, ◌≤◌, ◌≡◌, refl, sym, subst, arith, true, false, Option, none, some, [], ◌∷◌, ◌++◌, inl,
  inr, All, All-append, total_of-append, BTreeMap,
}
use dutch_auction.Base.Int.{pos_part, neg_part}
use dutch_auction.Base.Word.{i64_max, u64_max}
use dutch_auction.Proto.Ids.{ParticipantId, IdempotencyKey}
use dutch_auction.Proto.Money.{Price, Qty}
use dutch_auction.Proto.Time.{Nanos}
use dutch_auction.Proto.Status.{RejectReason, is_terminal}
use dutch_auction.Core.Event.{Outcome, Event}
use dutch_auction.Core.Bid.{PendingBid, OpenWindow, Collateral}
use dutch_auction.Core.State.{
  AuctionState, Out, window_bounds, push_pending, push_event, reserve, set_outcome, reject,
}
use dutch_auction.Core.Invariant.{IsSound}
use dutch_auction.Core.Backing.{owes, Holds, window_owed, open_owed, owed, BidFit}
use dutch_auction.Core.Backing.Moves.{Reserved, reserve-Holds}
use dutch_auction.Core.Backing.Cleared.{IsAbove}
use dutch_auction.Core.Backing.Prices.{IsFair, window_signless}
use dutch_auction.Core.Backing.Flushed.{IsHigh, IsBackedWindow, IsBacked}

-- An open window is the one of the present.
abbrev pub IsCurrent : Price → Option OpenWindow → Type 0
IsCurrent price none = Unit
IsCurrent price (some w) = w.price ≡ price

-- What a handler finds: fair terms, an instant that is the state's, and no older window.
pub record IsReady (ts : Nanos) (s : AuctionState) : Type 0 where
  pub fair : IsFair s.config
  pub in_time : s.now ≡ ts
  pub small_time : ts ≤ u64_max
  pub sound : IsSound s
  pub current : IsCurrent (window_bounds s.config ts).1 s.window

-- The window that a bid joins.
pub push_pending_backed :
    (p : ParticipantId) (index : ℕ) (price : Price) (b : PendingBid) (s : AuctionState)
    → neg_part price ≡ 0
    → BidFit price b
    → All (IsAbove price) s.fills
    → pos_part (window_bounds s.config s.now).1 ≤ pos_part price
    → IsCurrent price s.window
    → IsBackedWindow s.config s.now s.fills s.window
    → (w : OpenWindow) × (push_pending index price b s ≡ record s { window = some w })
      × (w.price ≡ price)
      × IsBackedWindow s.config s.now s.fills (some w)
      × (window_owed p w.bids ≡ owes p b.participant b.reserve_price b.qty + open_owed p s.window)
unfolding push_pending
push_pending_backed p index price b s signless fit above low current v = pushed s.window refl
  where
    f : PendingBid → ℕ
    f c = owes p c.participant c.reserve_price c.qty

    pushed :
        (x : Option OpenWindow)
        → s.window ≡ x
        → (w : OpenWindow) × (push_pending index price b s ≡ record s { window = some w })
          × (w.price ≡ price)
          × IsBackedWindow s.config s.now s.fills (some w)
          × (window_owed p w.bids
              ≡ owes p b.participant b.reserve_price b.qty + open_owed p s.window)
    pushed none e = (
      record { index = index; price = price; bids = b ∷ [] },
      rw e refl,
      refl,
      (signless, (fit, tt), above, low),
      rw e refl,
    )
    pushed (some w) e =
        let same : w.price ≡ price = subst (IsCurrent price) e current in
        let old = subst (IsBackedWindow s.config s.now s.fills) e v in
        (
          record w { bids = w.bids ++ b ∷ [] },
          rw e refl,
          same,
          (
            old.0,
            All-append (BidFit w.price) w.bids (b ∷ []) old.1
                (subst (λ (x : Price). BidFit x b) (sym same) fit, tt),
            old.2,
            old.3,
          ),
          rw e (omega (arith, total_of-append f w.bids (b ∷ []))),
        )

pub supply_fits : (s : AuctionState) → IsSound s → s.supply_remaining ≤ u64_max
supply_fits s v = omega (arith, v.small, v.conserved)

-- The fills of an auction that goes on.
pub fills_high :
    (s : AuctionState)
    → is_terminal s.status ≡ false
    → IsHigh s
    → All (IsAbove (window_bounds s.config s.now).1) s.fills
fills_high s going (inl ended) = cc
fills_high s going (inr high) = high

module _ (p : ParticipantId) (cap : ℕ) (big : cap ≤ i64_max) where
  abbrev pub Backed : Out → Type 0
  Backed o = IsBacked p cap o.state

  -- What a bid leaves that is turned away when the collateral is what it was.
  pub reject-Backed :
      (key : IdempotencyKey) (reason : RejectReason) (o : Out)
      → Backed o
      → Backed (reject key reason o)
  unfolding reject push_event set_outcome
  reject-Backed key reason o v = record {
    ledger = record {
      holds = v.ledger.holds;
      within = v.ledger.within;
      ladder_fit = v.ledger.ladder_fit;
      fills_fit = v.ledger.fills_fit;
    };
    windowed = v.windowed;
    high = v.high;
  }

  -- An event more.
  pub pushed-Backed : (e : Event) (o : Out) → Backed o → Backed (push_event e o)
  unfolding push_event
  pushed-Backed e o v = v

  -- A refused reservation.
  pub uncovered-Backed :
      (key : IdempotencyKey) (m : BTreeMap Collateral) (o : Out)
      → Holds p cap (owed p o.state) m
      → Backed o
      → Backed (
          reject key RejectReason.insufficient_collateral
            (record o { state = record o.state { collateral = m } }))
  unfolding reject push_event set_outcome
  uncovered-Backed key m o h v = record {
    ledger = record {
      holds = subst (λ n. Holds p cap n m) (omega arith) h;
      within = v.ledger.within;
      ladder_fit = v.ledger.ladder_fit;
      fills_fit = v.ledger.fills_fit;
    };
    windowed = v.windowed;
    high = v.high;
  }

  pub reserve-Reserved :
      (who : ParticipantId) (price : Price) (qty : Qty) (s : AuctionState)
      → neg_part price ≡ 0
      → IsBacked p cap s
      → Reserved p cap (owed p s) who price qty (reserve who price qty s.collateral)
  reserve-Reserved who price qty s signless v =
      reserve-Holds p cap who price qty s.collateral (owed p s) signless big
        (omega (arith, v.ledger.within))
        (subst (λ n. Holds p cap n s.collateral) (omega arith) v.ledger.holds)

  -- A bid that is queued for the current window.
  pub queued-IsBacked :
      (index : ℕ) (ts : Nanos) (b : PendingBid) (out : Outcome) (m : BTreeMap Collateral)
      (s : AuctionState)
      → IsReady ts s
      → is_terminal s.status ≡ false
      → b.reserve_price ≡ (window_bounds s.config ts).1
      → b.resting_limit ≡ none
      → Reserved p cap (owed p s) b.participant (window_bounds s.config ts).1 b.qty (true, m)
      → IsBacked p cap s
      → IsBacked p cap (
          set_outcome b.key out
            (push_pending index (window_bounds s.config ts).1 b (record s { collateral = m })))
  unfolding set_outcome
  queued-IsBacked index ts b out m s ready going at unlimited (fit, held, room) v =
      let price : Price = (window_bounds s.config ts).1 in
      let reserved : AuctionState = record s { collateral = m } in
      let above : All (IsAbove price) s.fills =
        subst (λ t. All (IsAbove (window_bounds s.config t).1) s.fills) ready.in_time
          (fills_high s going v.high) in
      let falling : pos_part (window_bounds s.config s.now).1 ≤ pos_part price =
        rw ready.in_time (omega arith) in
      let (w, e, _, backed, sums) =
        push_pending_backed p index price b reserved (window_signless s.config ready.fair ts)
          (rw at fit, rw at (omega arith), rw unlimited tt) above falling ready.current
          v.windowed in
      let cost_at : owes p b.participant b.reserve_price b.qty ≡ owes p b.participant price b.qty =
        rw at refl in
      rw e (record {
        ledger = record {
          holds = subst (λ n. Holds p cap n m) (omega (arith, sums, cost_at)) held;
          within = omega (arith, sums, cost_at, room);
          ladder_fit = v.ledger.ladder_fit;
          fills_fit = v.ledger.fills_fit;
        };
        windowed = backed;
        high = v.high;
      })
