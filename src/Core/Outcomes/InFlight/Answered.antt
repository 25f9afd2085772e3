-- ===== src/Core/Outcomes/InFlight/Answered.antt =====
-- crates/auction-core/src/state.rs: turning bids away and clearing answer the bids on the ladder.
use dutch_auction.Base.{
  ◌≡◌, subst, arith, List, [], ◌∷◌, Option, some, ◌⊎◌, inl, inr, BTreeMap, lookup, insert,
  lookup-insert, if_cases, option_cases, ◌==◌,
}
use dutch_auction.Base.Int.{eq_ℤ}
use dutch_auction.Proto.Ids.{ParticipantId, IdempotencyKey}
use dutch_auction.Proto.Money.{Price, Qty}
use dutch_auction.Proto.Status.{RejectReason, Status}
use dutch_auction.Core.Event.{Fill, Outcome}
use dutch_auction.Core.Ladder.{Level, RestingBid, drain_all, highest_first}
use dutch_auction.Core.Bid.{PendingBid}
use dutch_auction.Core.State.{
  AuctionState, Out, push_event, merge_outcome, set_outcome, reject, give_back,
}
use dutch_auction.Core.Clear.{
  requote, requote_key, reprice_fill, reprice_all, reprice_fills, turn_away, drain_resting,
  announce_cleared, clear,
}
use dutch_auction.Core.Matching.{reject_bids}
use dutch_auction.Core.Outcomes.InFlight.{
  IsFinal, HasKey, Rests, OnLadder, IsAnswered, Waits, Rests-append,
}

-- A final outcome stays final, whatever it is merged with the record.
merge_outcome-IsFinal :
    (before : Option Outcome) (out : Outcome)
    → IsFinal (some out)
    → IsFinal (some (merge_outcome before out))
unfolding merge_outcome
merge_outcome-IsFinal (some (Outcome.filled q p)) (Outcome.filled r at) v = tt
merge_outcome-IsFinal (some (Outcome.filled q p)) Outcome.cancelled v = tt
merge_outcome-IsFinal (some (Outcome.filled q p)) (Outcome.rejected reason) v = tt
merge_outcome-IsFinal (some (Outcome.filled q p)) (Outcome.filled_then_cancelled r at) v = tt
merge_outcome-IsFinal (some (Outcome.filled_then_cancelled q p)) out v = tt
merge_outcome-IsFinal _ _ v = v

requote-IsFinal :
    (price : Price) (out : Outcome) → IsFinal (some out) → IsFinal (some (requote price out))
unfolding requote
requote-IsFinal price (Outcome.filled q p) v = tt
requote-IsFinal price (Outcome.filled_then_cancelled q p) v = tt
requote-IsFinal price _ v = v

module _ (k : IdempotencyKey) where
  answered_insert :
      (key : IdempotencyKey) (out : Outcome) (m : BTreeMap Outcome)
      → (key ≡ k → IsFinal (some out))
      → (key ≡ k) ⊎ IsFinal (lookup k m)
      → IsFinal (lookup k (insert key out m))
  answered_insert key out m final v = rw (lookup-insert key k out m) (
      if_cases IsFinal (key == k) (some out) (lookup k m)
        (λ same. let e : key ≡ k = ground arith in final e)
        (λ other. elim v as (λ _. IsFinal (lookup k m)) [
          | inl e ↦ absurd (ground arith)
          | inr w ↦ w
        ]))

  pub set_outcome-answers :
      (key : IdempotencyKey) (out : Outcome) (s : AuctionState)
      → IsFinal (some out)
      → (key ≡ k) ⊎ IsAnswered k s
      → IsAnswered k (set_outcome key out s)
  unfolding set_outcome
  set_outcome-answers key out s final v =
      answered_insert key _ s.outcomes
        (λ _. merge_outcome-IsFinal (lookup key s.outcomes) out final) v

  pub reject-answers :
      (key : IdempotencyKey) (reason : RejectReason) (o : Out)
      → (key ≡ k) ⊎ IsAnswered k o.state
      → IsAnswered k (reject key reason o).state
  unfolding reject push_event
  reject-answers key reason o v = set_outcome-answers key (Outcome.rejected reason) o.state tt v

  give_back-answers :
      (p : ParticipantId) (price : Price) (qty : Qty) (key : IdempotencyKey) (reason : RejectReason)
      (o : Out)
      → (key ≡ k) ⊎ IsAnswered k o.state
      → IsAnswered k (give_back p price qty key reason o).state
  unfolding give_back reject push_event set_outcome
  give_back-answers p price qty key reason o v = reject-answers key reason o v

  pub give_back-Waits :
      (p : ParticipantId) (price : Price) (qty : Qty) (key : IdempotencyKey) (reason : RejectReason)
      (o : Out)
      → (key ≡ k) ⊎ Waits k o.state
      → Waits k (give_back p price qty key reason o).state
  unfolding give_back reject push_event set_outcome
  give_back-Waits p price qty key reason o (inr (inr l)) = inr l
  give_back-Waits p price qty key reason o (inr (inl a)) =
      inl (give_back-answers p price qty key reason o (inr a))
  give_back-Waits p price qty key reason o (inl e) =
      inl (give_back-answers p price qty key reason o (inl e))

  turn_away-answers :
      (reason : RejectReason) (bids : List RestingBid) (o : Out)
      → Rests k bids ⊎ IsAnswered k o.state
      → IsAnswered k (turn_away reason bids o).state
  unfolding turn_away
  turn_away-answers reason [] o (inl r) = absurd r
  turn_away-answers reason [] o (inr v) = v
  turn_away-answers reason (b ∷ bids) o (inl (inl e)) =
      turn_away-answers reason bids _
        (inr (give_back-answers b.participant b.limit b.qty b.key reason o (inl e)))
  turn_away-answers reason (b ∷ bids) o (inl (inr r)) = turn_away-answers reason bids _ (inl r)
  turn_away-answers reason (b ∷ bids) o (inr v) =
      turn_away-answers reason bids _
        (inr (give_back-answers b.participant b.limit b.qty b.key reason o (inr v)))

  pub reject_bids-answers :
      (reason : RejectReason) (bids : List PendingBid) (o : Out)
      → HasKey k bids ⊎ IsAnswered k o.state
      → IsAnswered k (reject_bids reason bids o).state
  unfolding reject_bids
  reject_bids-answers reason [] o (inl r) = absurd r
  reject_bids-answers reason [] o (inr v) = v
  reject_bids-answers reason (b ∷ bids) o (inl (inl e)) =
      reject_bids-answers reason bids _
        (inr (give_back-answers b.participant b.reserve_price b.qty b.key reason o (inl e)))
  reject_bids-answers reason (b ∷ bids) o (inl (inr r)) = reject_bids-answers reason bids _ (inl r)
  reject_bids-answers reason (b ∷ bids) o (inr v) =
      reject_bids-answers reason bids _
        (inr (give_back-answers b.participant b.reserve_price b.qty b.key reason o (inr v)))

  pub reject_bids-Waits :
      (reason : RejectReason) (bids : List PendingBid) (o : Out)
      → Waits k o.state
      → Waits k (reject_bids reason bids o).state
  unfolding reject_bids
  reject_bids-Waits reason [] o v = v
  reject_bids-Waits reason (b ∷ bids) o v =
      reject_bids-Waits reason bids _
        (give_back-Waits b.participant b.reserve_price b.qty b.key reason o (inr v))

  pub highest_first-Rests :
      (levels : List Level) → OnLadder k levels → Rests k (highest_first levels)
  unfolding highest_first
  highest_first-Rests [] v = v
  highest_first-Rests ((p, bids) ∷ rest) (inl r) = Rests-append k (highest_first rest) bids (inr r)
  highest_first-Rests ((p, bids) ∷ rest) (inr v) =
      Rests-append k (highest_first rest) bids (inl (highest_first-Rests rest v))

  -- Everything on the ladder is answered.
  pub drain_resting-answers :
      (reason : RejectReason) (o : Out)
      → Waits k o.state
      → IsAnswered k (drain_resting reason o).state
  unfolding drain_resting drain_all
  drain_resting-answers reason o v =
      let s = o.state in
      let (bids, ladder) = drain_all s.resting in
      turn_away-answers reason bids (record o { state = record s { resting = ladder } })
        (elim v as (λ _. Rests k bids ⊎ IsAnswered k s) [
          | inl a ↦ inr a
          | inr l ↦ inl (highest_first-Rests s.resting.levels l)
        ])

  requote_key-IsFinal :
      (price : Price) (key : IdempotencyKey) (m : BTreeMap Outcome)
      → IsFinal (lookup k m)
      → IsFinal (lookup k (requote_key price key m))
  unfolding requote_key
  requote_key-IsFinal price key m v =
      option_cases (λ (r : BTreeMap Outcome). IsFinal (lookup k r)) (lookup key m) m _ (λ _. v)
        λ out found.
          answered_insert key (requote price out) m
            (λ e.
              requote-IsFinal price out
                (subst IsFinal (subst (λ j. lookup j m ≡ some out) e found) v))
            (inr v)

  reprice_fill-Waits :
      (price : Price) (f : Fill) (o : Out)
      → Waits k o.state
      → Waits k (reprice_fill price f o).1.state
  unfolding reprice_fill push_event
  reprice_fill-Waits price f o (inr l) =
      if_cases (λ (r : Fill × Out). Waits k r.1.state) (eq_ℤ f.price price) _ _ (λ _. inr l)
        (λ _. inr l)
  reprice_fill-Waits price f o (inl a) =
      if_cases (λ (r : Fill × Out). Waits k r.1.state) (eq_ℤ f.price price) _ _
        (λ _. inl (requote_key-IsFinal price f.key o.state.outcomes a))
        (λ _. inl (requote_key-IsFinal price f.key o.state.outcomes a))

  reprice_all-Waits :
      (price : Price) (fs : List Fill) (o : Out)
      → Waits k o.state
      → Waits k (reprice_all price fs o).1.state
  unfolding reprice_all
  reprice_all-Waits price [] o v = v
  reprice_all-Waits price (f ∷ fs) o v =
      reprice_all-Waits price fs _ (reprice_fill-Waits price f o v)

  pub clear-answers :
      (price : Price) (o : Out) → Waits k o.state → IsAnswered k (clear price o).state
  unfolding clear reprice_fills announce_cleared push_event
  clear-answers price o v =
      let ended : Out = record o {
        state = record o.state { status = Status.cleared; clearing_price = some price };
      } in
      drain_resting-answers RejectReason.unfilled (reprice_fills price ended)
        (reprice_all-Waits price o.state.fills ended v)
