-- ===== src/Core/Outcomes/InFlight/Reachable.antt =====
-- docs/invariants.md, I10: no bid is lost, and at the end every bid has its final answer.
use dutch_auction.Base.{lookup, ◌≡◌, subst, some, ◌⊎◌, inl, inr, true, false, max}
use dutch_auction.Proto.Ids.{ParticipantId, IdempotencyKey, Seq}
use dutch_auction.Proto.Money.{Qty}
use dutch_auction.Proto.Time.{Nanos}
use dutch_auction.Proto.Status.{is_terminal}
use dutch_auction.Core.Config.{AuctionConfig}
use dutch_auction.Core.Command.{BidKind, Command}
use dutch_auction.Core.Event.{Outcome}
use dutch_auction.Core.State.{AuctionState, Out, new_state, outcome}
use dutch_auction.Core.Apply.{apply, begin}
use dutch_auction.Core.Invariant.Reachable.{Reach, apply_inv}
use dutch_auction.Core.Outcomes.Retries.{Later, nothing_forgotten, submission_answered}
use dutch_auction.Core.Outcomes.InFlight.{IsFinal, InWindow, OnLadder, IsTracked}
use dutch_auction.Core.Outcomes.InFlight.Handled.{close_elapsed_window-IsTracked, handle-IsTracked}

module _ (k : IdempotencyKey) where
  apply-IsTracked :
      (s : AuctionState) (seq : Seq) (ts : Nanos) (cmd : Command) {o : Out}
      → apply s seq ts cmd ≡ some o
      → IsTracked k s
      → IsTracked k o.state
  unfolding begin
  apply-IsTracked s seq ts cmd e v =
      subst (λ (r : Out). IsTracked k r.state) (apply_inv s seq ts cmd e).1
        (handle-IsTracked k cmd seq (max ts s.now) _
          (close_elapsed_window-IsTracked k (max ts s.now) (begin seq ts s) v))

  Reach-IsTracked : {config : AuctionConfig} {s : AuctionState} → Reach config s → IsTracked k s
  unfolding new_state lookup
  Reach-IsTracked Reach.created = inl tt
  Reach-IsTracked (Reach.applied {s} seq ts cmd r e) =
      apply-IsTracked s seq ts cmd e (Reach-IsTracked r)

Reach-Later :
    {config : AuctionConfig} {s t : AuctionState} → Reach config s → Later s t → Reach config t
Reach-Later r Later.unchanged = r
Reach-Later r (Later.applied seq ts cmd l e) = Reach.applied seq ts cmd (Reach-Later r l) e

-- In every state that commands bring a new auction to, a key whose outcome on record is queued or
-- resting has its bid in the open window or on the ladder, and the auction has not ended.
pub in_flight :
    {config : AuctionConfig} {s : AuctionState} (key : IdempotencyKey) (out : Outcome)
    → Reach config s
    → outcome s key ≡ some out
    → ¬ IsFinal (some out)
    → (is_terminal s.status ≡ false) × (InWindow key s.window ⊎ OnLadder key s.resting.levels)
unfolding outcome
in_flight key out r e promised = elim (Reach-IsTracked key r) [
  | inl final ↦ absurd (promised (subst IsFinal e final))
  | inr held ↦ held
]

-- A submission is applied in a state that commands bring a new auction to, and then any commands are,
-- until the auction is cleared or cancelled: then the outcome on record for its key is a final one,
-- neither queued nor resting.
pub ended_answered :
    {config : AuctionConfig} {s t : AuctionState} (seq : Seq) (ts : Nanos)
    (participant : ParticipantId) (key : IdempotencyKey) (qty : Qty) (kind : BidKind) {o : Out}
    → Reach config s
    → apply s seq ts (Command.submit_bid participant key qty kind) ≡ some o
    → Later o.state t
    → is_terminal t.status ≡ true
    → (out : Outcome) × (outcome t key ≡ some out) × IsFinal (some out)
unfolding outcome
ended_answered {s} {t} seq ts participant key qty kind r e l ended =
    let (out, known) =
      nothing_forgotten key (submission_answered s seq ts participant key qty kind e) l in
    let reached =
      Reach-Later (Reach.applied seq ts (Command.submit_bid participant key qty kind) r e) l in
    (
      out,
      known,
      elim (Reach-IsTracked key reached) [
        | inl final ↦ subst IsFinal known final
        | inr (going, _) ↦ cc
      ],
    )
