-- ===== src/Core/Outcomes/Retries.antt =====
-- crates/auction-core/src/state.rs: every submission is answered, and a second one changes nothing.
use dutch_auction.Base.{◌≡◌, refl, sym, ◌∙◌, subst, some, lookup, inl, max}
use dutch_auction.Proto.Ids.{ParticipantId, IdempotencyKey, Seq}
use dutch_auction.Proto.Money.{Qty}
use dutch_auction.Proto.Time.{Nanos}
use dutch_auction.Core.Command.{BidKind, Command}
use dutch_auction.Core.Event.{Outcome, Event}
use dutch_auction.Core.State.{AuctionState, Out, outcome, push_event}
use dutch_auction.Core.Apply.{on_bid, close_elapsed_window, handle, begin, apply}
use dutch_auction.Core.Outcomes.{IsKnown}
use dutch_auction.Core.Outcomes.Handled.{apply-keeps, on_bid-answers, close_elapsed_window-keeps}
use dutch_auction.Core.Invariant.Reachable.{apply_inv}

-- The states that commands bring a state to.
pub data Later (s : AuctionState) : AuctionState → Type 0 where
  unchanged : Later s s
  applied :
      {t : AuctionState} {o : Out} (seq : Seq) (ts : Nanos) (cmd : Command)
      → Later s t
      → apply t seq ts cmd ≡ some o
      → Later s o.state

pub nothing_forgotten :
    (key : IdempotencyKey) {s t : AuctionState} → IsKnown key s → Later s t → IsKnown key t
nothing_forgotten key v Later.unchanged = v
nothing_forgotten key v (Later.applied {t} seq ts cmd l e) =
    apply-keeps key t seq ts cmd e (nothing_forgotten key v l)

-- A submission that is applied leaves an outcome on record for its key, whatever it is: no bid goes
-- without an answer.
pub submission_answered :
    (s : AuctionState) (seq : Seq) (ts : Nanos) (participant : ParticipantId) (key : IdempotencyKey)
    (qty : Qty) (kind : BidKind) {o : Out}
    → apply s seq ts (Command.submit_bid participant key qty kind) ≡ some o
    → (out : Outcome) × (outcome o.state key ≡ some out)
unfolding handle outcome
submission_answered s seq ts participant key qty kind e =
    subst (λ (r : Out). IsKnown key r.state)
      (apply_inv s seq ts (Command.submit_bid participant key qty kind) e).1
      (on_bid-answers key seq (max ts s.now) participant key qty kind _ (inl refl))

on_bid-known :
    (seq : Seq) (ts : Nanos) (participant : ParticipantId) (key : IdempotencyKey) (qty : Qty)
    (kind : BidKind) (o : Out) (out : Outcome)
    → lookup key o.state.outcomes ≡ some out
    → on_bid seq ts participant key qty kind o ≡ push_event (Event.duplicate key out) o
unfolding on_bid
on_bid-known seq ts participant key qty kind o out e = rw (e, on_bid) refl

-- A submission is applied, then any commands are, and then a submission under the same key, by any
-- participant, for any quantity and of any kind. The second one does what a command does in any case,
-- which is to move the clock and to close a window that has elapsed, and beyond that it only
-- announces the outcome that is then on record for the key.
pub retry_harmless :
    (s t : AuctionState) (seq seq' : Seq) (ts ts' : Nanos)
    (participant participant' : ParticipantId) (key : IdempotencyKey) (qty qty' : Qty)
    (kind kind' : BidKind) {o o' : Out}
    → apply s seq ts (Command.submit_bid participant key qty kind) ≡ some o
    → Later o.state t
    → apply t seq' ts' (Command.submit_bid participant' key qty' kind') ≡ some o'
    → (out : Outcome) × (outcome (close_elapsed_window (max ts' t.now) (begin seq' ts' t)).state key
        ≡ some out)
      × (o'
          ≡ push_event
              (Event.duplicate key out)
              (close_elapsed_window (max ts' t.now) (begin seq' ts' t)))
unfolding handle outcome begin
retry_harmless s t seq seq' ts ts' participant participant' key qty qty' kind kind' e l e' =
    let first = submission_answered s seq ts participant key qty kind e in
    let closed : Out = close_elapsed_window (max ts' t.now) (begin seq' ts' t) in
    let (out, found) =
      close_elapsed_window-keeps key (max ts' t.now) (begin seq' ts' t)
        (nothing_forgotten key first l) in
    (
      out,
      found,
      sym (apply_inv t seq' ts' (Command.submit_bid participant' key qty' kind') e').1
          ∙ on_bid-known seq' (max ts' t.now) participant' key qty' kind' closed out found,
    )
