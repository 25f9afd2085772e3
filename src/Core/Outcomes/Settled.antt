-- ===== src/Core/Outcomes/Settled.antt =====
-- crates/auction-core/src/state.rs: settling a window and clearing forget no outcome.
use dutch_auction.Base.{
  ℕ, ◌≡◌, refl, arith, List, [], ◌∷◌, Option, some, none, BTreeMap, lookup, insert, lookup-insert,
  if_cases, option_cases, ◌||◌, ◌==◌, Bool,
}
use dutch_auction.Base.Int.{eq_ℤ}
use dutch_auction.Proto.Ids.{ParticipantId, IdempotencyKey}
use dutch_auction.Proto.Money.{Price, Qty, is_zero}
use dutch_auction.Proto.Status.{RejectReason, Status, accepts_bids}
use dutch_auction.Core.Event.{Fill, Outcome}
use dutch_auction.Core.Ladder.{RestingBid, drain_all}
use dutch_auction.Core.Bid.{PendingBid, OpenWindow}
use dutch_auction.Core.State.{
  AuctionState, Out, push_event, merge_outcome, set_outcome, reject, give_back,
}
use dutch_auction.Core.Clear.{
  requote, requote_key, reprice_fill, reprice_all, reprice_fills, turn_away, drain_resting,
  announce_cleared, clear,
}
use dutch_auction.Core.Matching.{
  Matched, match_window, sort_bids, requeue_remainder, fill_bid, settle_bid, settle_bids,
  reject_bids, settle_window, flush_window,
}
use dutch_auction.Core.Outcomes.{IsKnown}

known_insert :
    (key other : IdempotencyKey) (out : Outcome) (m : BTreeMap Outcome)
    → ((a : Outcome) × (lookup other m ≡ some a))
    → (a : Outcome) × (lookup other (insert key out m) ≡ some a)
known_insert key other out m (a, e) = rw (lookup-insert key other out m) (
    if_cases (λ (r : Option Outcome). (b : Outcome) × (r ≡ some b)) (key == other) (some out)
      (lookup other m) (λ _. (out, refl)) (λ _. (a, e)))

found_inserted :
    (key : IdempotencyKey) (out : Outcome) (m : BTreeMap Outcome)
    → lookup key (insert key out m) ≡ some out
found_inserted key out m = ground (arith, lookup-insert key key out m)

pub set_outcome-records :
    (key : IdempotencyKey) (out : Outcome) (s : AuctionState) → IsKnown key (set_outcome key out s)
unfolding set_outcome
set_outcome-records key out s =
    (merge_outcome (lookup key s.outcomes) out, found_inserted key _ s.outcomes)

pub reject-records :
    (key : IdempotencyKey) (reason : RejectReason) (o : Out)
    → IsKnown key (reject key reason o).state
unfolding reject push_event
reject-records key reason o = set_outcome-records key (Outcome.rejected reason) o.state

-- Nothing forgets an outcome, of any key.
module _ (k : IdempotencyKey) where
  abbrev Known : Out → Type 0
  Known o = IsKnown k o.state

  pub set_outcome-keeps :
      (key : IdempotencyKey) (out : Outcome) (s : AuctionState)
      → IsKnown k s
      → IsKnown k (set_outcome key out s)
  unfolding set_outcome
  set_outcome-keeps key out s v = known_insert key k _ s.outcomes v

  pub reject-keeps :
      (key : IdempotencyKey) (reason : RejectReason) (o : Out)
      → Known o
      → Known (reject key reason o)
  unfolding reject push_event
  reject-keeps key reason o v = set_outcome-keeps key (Outcome.rejected reason) o.state v

  give_back-keeps :
      (p : ParticipantId) (price : Price) (qty : Qty) (key : IdempotencyKey) (reason : RejectReason)
      (o : Out)
      → Known o
      → Known (give_back p price qty key reason o)
  unfolding give_back reject push_event set_outcome
  give_back-keeps p price qty key reason o v = reject-keeps key reason o v

  turn_away-keeps :
      (reason : RejectReason) (bids : List RestingBid) (o : Out)
      → Known o
      → Known (turn_away reason bids o)
  unfolding turn_away
  turn_away-keeps reason [] o v = v
  turn_away-keeps reason (b ∷ bids) o v =
      turn_away-keeps reason bids _ (give_back-keeps b.participant b.limit b.qty b.key reason o v)

  pub drain_resting-keeps :
      (reason : RejectReason) (o : Out) → Known o → Known (drain_resting reason o)
  unfolding drain_resting drain_all
  drain_resting-keeps reason o v =
      let (bids, ladder) = drain_all o.state.resting in
      turn_away-keeps reason bids (record o { state = record o.state { resting = ladder } }) v

  pub reject_bids-keeps :
      (reason : RejectReason) (bids : List PendingBid) (o : Out)
      → Known o
      → Known (reject_bids reason bids o)
  unfolding reject_bids
  reject_bids-keeps reason [] o v = v
  reject_bids-keeps reason (b ∷ bids) o v =
      reject_bids-keeps reason bids _
        (give_back-keeps b.participant b.reserve_price b.qty b.key reason o v)

  requote_key-keeps :
      (price : Price) (key : IdempotencyKey) (m : BTreeMap Outcome)
      → ((a : Outcome) × (lookup k m ≡ some a))
      → (a : Outcome) × (lookup k (requote_key price key m) ≡ some a)
  unfolding requote_key
  requote_key-keeps price key m v =
      option_cases (λ (r : BTreeMap Outcome). (a : Outcome) × (lookup k r ≡ some a)) (lookup key m)
        m _ (λ _. v) (λ out _. known_insert key k (requote price out) m v)

  reprice_fill-keeps :
      (price : Price) (f : Fill) (o : Out) → Known o → Known (reprice_fill price f o).1
  unfolding reprice_fill push_event
  reprice_fill-keeps price f o v =
      if_cases (λ (r : Fill × Out). Known r.1) (eq_ℤ f.price price) _ _
        (λ _. requote_key-keeps price f.key o.state.outcomes v)
        (λ _. requote_key-keeps price f.key o.state.outcomes v)

  reprice_all-keeps :
      (price : Price) (fs : List Fill) (o : Out) → Known o → Known (reprice_all price fs o).1
  unfolding reprice_all
  reprice_all-keeps price [] o v = v
  reprice_all-keeps price (f ∷ fs) o v =
      reprice_all-keeps price fs _ (reprice_fill-keeps price f o v)

  pub clear-keeps : (price : Price) (o : Out) → Known o → Known (clear price o)
  unfolding clear reprice_fills announce_cleared push_event
  clear-keeps price o v =
      let ended : Out = record o {
        state = record o.state { status = Status.cleared; clearing_price = some price };
      } in
      drain_resting-keeps RejectReason.unfilled (reprice_fills price ended)
        (reprice_all-keeps price o.state.fills ended v)

  requeue_remainder-keeps :
      (b : PendingBid) (left : Qty) (ex : Bool) (s : AuctionState)
      → IsKnown k s
      → IsKnown k (requeue_remainder b left ex s)
  unfolding requeue_remainder
  requeue_remainder-keeps b left ex s v =
      option_cases (IsKnown k) b.resting_limit s _ (λ _. v)
        (λ limit _. if_cases (IsKnown k) (is_zero left || ex) s _ (λ _. v) (λ _. v))

  fill_bid-keeps :
      (price : Price) (ex : Bool) (b : PendingBid) (alloc : ℕ) (o : Out)
      → Known o
      → Known (fill_bid price ex b alloc o)
  unfolding fill_bid push_event set_outcome
  fill_bid-keeps price ex b alloc o v =
      requeue_remainder-keeps b _ ex _
        (set_outcome-keeps b.key (Outcome.filled alloc price) o.state v)

  settle_bid-keeps :
      (price : Price) (ex : Bool) (b : PendingBid) (alloc : ℕ) (o : Out)
      → Known o
      → Known (settle_bid price ex b alloc o)
  unfolding settle_bid
  settle_bid-keeps price ex b alloc o v =
      if_cases Known (is_zero alloc) _ _
        (λ _.
          give_back-keeps b.participant b.reserve_price b.qty b.key RejectReason.supply_exhausted o
            v)
        (λ _. fill_bid-keeps price ex b alloc o v)

  settle_bids-keeps :
      (price : Price) (ex : Bool) (bids : List PendingBid) (allocs : List ℕ) (o : Out)
      → Known o
      → Known (settle_bids price ex bids allocs o)
  unfolding settle_bids
  settle_bids-keeps price ex (b ∷ bids) (a ∷ allocs) o v =
      settle_bids-keeps price ex bids allocs _ (settle_bid-keeps price ex b a o v)
  settle_bids-keeps price ex [] [] o v = v
  settle_bids-keeps price ex [] (a ∷ allocs) o v = v
  settle_bids-keeps price ex (b ∷ bids) [] o v = v

  settle_window-keeps : (w : OpenWindow) (o : Out) → Known o → Known (settle_window w o)
  unfolding settle_window
  settle_window-keeps w o v =
      let s = o.state in
      let m : Matched = match_window (sort_bids w.bids) s.supply_remaining in
      let taken : Out = record o { state = record s { supply_remaining = m.supply } } in
      let settled : Out = settle_bids w.price m.exhausted (sort_bids w.bids) m.allocs taken in
      let kept = settle_bids-keeps w.price m.exhausted (sort_bids w.bids) m.allocs taken v in
      if_cases Known m.exhausted (clear w.price settled) settled
        (λ _. clear-keeps w.price settled kept) (λ _. kept)

  pub flush_window-keeps : (o : Out) → Known o → Known (flush_window o)
  unfolding flush_window
  flush_window-keeps o v =
      let taken : Out = record o { state = record o.state { window = none } } in
      option_cases Known o.state.window o _ (λ _. v)
        (λ w _.
          if_cases Known (accepts_bids o.state.status) _ _ (λ _. settle_window-keeps w taken v)
            (λ _. reject_bids-keeps RejectReason.not_live w.bids taken v))
