-- ===== src/Core/Backing/Admitted.antt =====
-- crates/auction-core/src/state.rs, `on_bid`: a bid is admitted only if the collateral backs it.
use dutch_auction.Base.{
  ℕ, ◌≤◌, ◌≡◌, refl, subst, arith, false, Bool, lookup, if_cases, option_cases, ◌==◌, ltb, BTreeMap,
}
use dutch_auction.Base.Int.{neg_part, ltb_ℤ}
use dutch_auction.Base.Word.{i64_max}
use dutch_auction.Proto.Ids.{ParticipantId, IdempotencyKey, Seq}
use dutch_auction.Proto.Money.{Price, Qty, is_zero, abs_diff}
use dutch_auction.Proto.Time.{Nanos}
use dutch_auction.Proto.Status.{accepts_bids, is_terminal}
use dutch_auction.Core.Config.{price_at}
use dutch_auction.Core.Command.{BidKind}
use dutch_auction.Core.Event.{Outcome, Event}
use dutch_auction.Core.Ladder.{RestingBid}
use dutch_auction.Core.Ladder.Sums.{sum-insert_bid, AllBids-insert_bid}
use dutch_auction.Core.Bid.{PendingBid, Collateral}
use dutch_auction.Core.State.{
  AuctionState, Out, window_bounds, push_pending, push_event, reserve, set_outcome,
}
use dutch_auction.Core.Apply.{on_take, on_resting, on_kind, on_bid}
use dutch_auction.Core.Outcomes.Handled.{new_take}
use dutch_auction.Core.Outcomes.InFlight.Flushed.{open_of_accepts}
use dutch_auction.Core.Backing.{owes, Holds, owed, RestFit}
use dutch_auction.Core.Backing.Moves.{Reserved}
use dutch_auction.Core.Backing.Prices.{window_signless}
use dutch_auction.Core.Backing.Flushed.{IsCalm-IsBacked, flush_window-IsCalm}
use dutch_auction.Core.Backing.Bids.{
  IsReady, supply_fits, Backed, reject-Backed, pushed-Backed, uncovered-Backed, reserve-Reserved,
  queued-IsBacked,
}

-- A resting bid names a limit that is not negative.
abbrev pub IsFairKind : BidKind → Type 0
IsFairKind (BidKind.take expected) = Unit
IsFairKind (BidKind.resting limit) = neg_part limit ≡ 0

push_pending-supply :
    (index : ℕ) (price : Price) (b : PendingBid) (s : AuctionState)
    → (push_pending index price b s).supply_remaining ≡ s.supply_remaining
unfolding push_pending
push_pending-supply index price b s =
    option_cases (λ (r : AuctionState). r.supply_remaining ≡ s.supply_remaining) s.window _ _
      (λ _. refl) (λ _ _. refl)

module _ (p : ParticipantId) (cap : ℕ) (big : cap ≤ i64_max) where
  on_take-Backed :
      (seq : Seq) (ts : Nanos) (who : ParticipantId) (key : IdempotencyKey) (qty : Qty)
      (expected : Price) (o : Out)
      → IsReady ts o.state
      → is_terminal o.state.status ≡ false
      → Backed p cap big o
      → Backed p cap big (on_take seq ts who key qty expected o)
  unfolding on_take push_event set_outcome
  on_take-Backed seq ts who key qty expected o ready going v =
      let s = o.state in
      let index : ℕ = (window_bounds s.config ts).0 in
      let price : Price = (window_bounds s.config ts).1 in
      let r : Bool × BTreeMap Collateral = reserve who price qty s.collateral in
      let reserved : AuctionState = record s { collateral = r.1 } in
      let held =
        reserve-Reserved p cap big who price qty s (window_signless s.config ready.fair ts) v in
      let bid : PendingBid = new_take seq who key qty price in
      let queued : Out = push_event (Event.queued key who qty price) (record o {
        state = set_outcome key (Outcome.queued qty) (push_pending index price bid reserved);
      }) in
      if_cases (Backed p cap big)
        (ltb s.config.price_tolerance (abs_diff (price_at s.config ts) expected)) _ _
        (λ _. reject-Backed p cap big key _ o v)
        λ _.
          if_cases (Backed p cap big) r.0 _ _
            (λ covered.
              let joined : Backed p cap big queued =
                queued-IsBacked p cap big index ts bid (Outcome.queued qty) r.1 s ready going refl
                  refl (subst (λ b. Reserved p cap (owed p s) who price qty (b, r.1)) covered held)
                  v in
              if_cases (Backed p cap big) (s.config.batch_window == 0) _ _
                (λ _. IsCalm-IsBacked (
                  flush_window-IsCalm p cap big queued
                    (rw (push_pending-supply index price bid reserved) (supply_fits s ready.sound))
                    joined))
                (λ _. joined))
            (λ refused.
              uncovered-Backed p cap big key r.1 o
                (subst (λ b. Reserved p cap (owed p s) who price qty (b, r.1)) refused held) v)

  on_resting-Backed :
      (seq : Seq) (ts : Nanos) (who : ParticipantId) (key : IdempotencyKey) (qty : Qty)
      (limit : Price) (o : Out)
      → neg_part limit ≡ 0
      → Backed p cap big o
      → Backed p cap big (on_resting seq ts who key qty limit o)
  unfolding on_resting push_event set_outcome
  on_resting-Backed seq ts who key qty limit o signless v =
      let s = o.state in
      let r : Bool × BTreeMap Collateral = reserve who limit qty s.collateral in
      let held = reserve-Reserved p cap big who limit qty s signless v in
      let bid : RestingBid = record {
        seq = seq;
        participant = who;
        key = key;
        qty = qty;
        limit = limit;
      } in
      let sums =
        sum-insert_bid (λ (b : RestingBid). owes p b.participant b.limit b.qty) s.resting bid in
      if_cases (Backed p cap big) (ltb_ℤ (price_at s.config ts) limit) _ _
        (λ _. reject-Backed p cap big key _ o v)
        λ _.
          if_cases (Backed p cap big) r.0 _ _
            (λ covered.
              let (fit, holds, room) =
                subst (λ b. Reserved p cap (owed p s) who limit qty (b, r.1)) covered held in
              record {
                ledger = record {
                  holds = subst (λ n. Holds p cap n r.1) (omega (arith, sums)) holds;
                  within = omega (arith, sums, room);
                  ladder_fit = AllBids-insert_bid RestFit s.resting bid fit v.ledger.ladder_fit;
                  fills_fit = v.ledger.fills_fit;
                };
                windowed = v.windowed;
                high = v.high;
              })
            (λ refused.
              uncovered-Backed p cap big key r.1 o
                (subst (λ b. Reserved p cap (owed p s) who limit qty (b, r.1)) refused held) v)

  on_kind-Backed :
      (kind : BidKind) (seq : Seq) (ts : Nanos) (who : ParticipantId) (key : IdempotencyKey)
      (qty : Qty) (o : Out)
      → IsFairKind kind
      → IsReady ts o.state
      → is_terminal o.state.status ≡ false
      → Backed p cap big o
      → Backed p cap big (on_kind kind seq ts who key qty o)
  unfolding on_kind
  on_kind-Backed (BidKind.take price) seq ts who key qty o fair ready going v =
      on_take-Backed seq ts who key qty price o ready going v
  on_kind-Backed (BidKind.resting limit) seq ts who key qty o fair ready going v =
      on_resting-Backed seq ts who key qty limit o fair v

  pub on_bid-Backed :
      (seq : Seq) (ts : Nanos) (who : ParticipantId) (key : IdempotencyKey) (qty : Qty)
      (kind : BidKind) (o : Out)
      → IsFairKind kind
      → IsReady ts o.state
      → Backed p cap big o
      → Backed p cap big (on_bid seq ts who key qty kind o)
  unfolding on_bid
  on_bid-Backed seq ts who key qty kind o fair ready v =
      option_cases (Backed p cap big) (lookup key o.state.outcomes) _ _
        (λ _.
          if_cases (Backed p cap big) (is_zero qty) _ _ (λ _. reject-Backed p cap big key _ o v)
            λ _.
              if_cases (Backed p cap big) (accepts_bids o.state.status) _ _
                (λ a.
                  on_kind-Backed kind seq ts who key qty o fair ready
                    (open_of_accepts o.state.status a) v)
                (λ _. reject-Backed p cap big key _ o v))
        (λ out _. pushed-Backed p cap big (Event.duplicate key out) o v)
