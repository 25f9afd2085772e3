-- ===== src/Core/Backing/Handled.antt =====
-- crates/auction-core/src/state.rs: the handlers of every command keep the collateral exact.
use dutch_auction.Base.{
  ℕ, ◌≤◌, ◌≡◌, refl, ◌∙◌, sym, ap, subst, arith, true, Option, none, some, inl, inr, if_cases,
  option_cases, Bool-cases, ◌==◌, lookup, insert, get_or, get_or-insert, BTreeMap,
}
use dutch_auction.Base.Int.{ℤ, pos, ◌≤ℤ◌}
use dutch_auction.Base.Word.{i64_max}
use dutch_auction.Proto.Ids.{ParticipantId, IdempotencyKey, Seq}
use dutch_auction.Proto.Time.{Nanos}
use dutch_auction.Proto.Status.{Status, RejectReason, is_pending, is_terminal}
use dutch_auction.Core.Command.{Command}
use dutch_auction.Core.Ladder.{RestingBid, PriceLadder, remove}
use dutch_auction.Core.Ladder.Order.{IsOrdered}
use dutch_auction.Core.Ladder.Sums.{Removed, remove-Removed}
use dutch_auction.Core.Bid.{OpenWindow, Collateral, no_collateral}
use dutch_auction.Core.State.{Out, push_event, set_outcome}
use dutch_auction.Core.Clear.Uniform.{drain_resting-SameFills}
use dutch_auction.Core.Apply.{
  on_open, on_set_collateral, cancel_found, on_cancel_resting, reject_window, on_cancel, handle,
}
use dutch_auction.Core.Backing.{owes, Holds, open_owed, RestFit, Ledger}
use dutch_auction.Core.Backing.Moves.{release-Holds}
use dutch_auction.Core.Backing.Settled.{drain_resting-Ledger}
use dutch_auction.Core.Backing.Flushed.{
  IsBackedWindow, IsCalm, IsCalm-IsBacked, reject_bids-IsCalm, taken-Ledger,
}
use dutch_auction.Core.Backing.Bids.{IsReady, Backed}
use dutch_auction.Core.Backing.Admitted.{IsFairKind, on_bid-Backed}
use dutch_auction.Core.Backing.Ticks.{on_tick-Backed}

-- Commands that name no negative limit for a bid, and no limit over the cap for the collateral of `p`.
abbrev pub IsFairCommand : ParticipantId → ℕ → Command → Type 0
IsFairCommand p cap (Command.set_collateral who limit) = who ≡ p → limit ≤ℤ pos cap
IsFairCommand p cap (Command.submit_bid who key qty kind) = IsFairKind kind
IsFairCommand p cap Command.opening = Unit
IsFairCommand p cap (Command.cancel_resting who key) = Unit
IsFairCommand p cap Command.tick = Unit
IsFairCommand p cap Command.cancel = Unit

pending_not_terminal : (st : Status) → is_pending st ≡ true → ¬ (is_terminal st ≡ true)
unfolding is_pending is_terminal
pending_not_terminal st e h = ground arith

cancelled_is_terminal : is_terminal Status.cancelled ≡ true
unfolding is_terminal
cancelled_is_terminal = refl

module _ (p : ParticipantId) (cap : ℕ) (big : cap ≤ i64_max) where
  on_open-Backed : (o : Out) → Backed p cap big o → Backed p cap big (on_open o)
  unfolding on_open push_event
  on_open-Backed o v =
      if_cases (Backed p cap big) (is_pending o.state.status) _ o
        (λ e. record {
          ledger = record {
            holds = v.ledger.holds;
            within = v.ledger.within;
            ladder_fit = v.ledger.ladder_fit;
            fills_fit = v.ledger.fills_fit;
          };
          windowed = v.windowed;
          high = elim v.high [
            | inl ended ↦ absurd (pending_not_terminal o.state.status e ended)
            | inr high ↦ inr high
          ];
        })
        (λ _. v)

  -- A limit on record is that participant's.
  limited-Holds :
      (who : ParticipantId) (limit : ℤ) (m : BTreeMap Collateral) (n : ℕ)
      → (who ≡ p → limit ≤ℤ pos cap)
      → Holds p cap n m
      → Holds p cap n (insert who (record (get_or who no_collateral m) { limit = limit }) m)
  limited-Holds who limit m n fair v =
      let c : Collateral = record (get_or who no_collateral m) { limit = limit } in
      let found = get_or-insert who p c no_collateral m in
      elim (Bool-cases (who == p)) [
        | inl e ↦
            let same : who ≡ p = ground arith in
            let at : get_or p no_collateral (insert who c m) ≡ c = found ∙ rw e refl in
            record {
              committed =
                  ap (λ (x : Collateral). x.committed) at
                  ∙ subst (λ j. (get_or j no_collateral m).committed ≡ pos n) (sym same)
                      v.committed;
              limited =
                  subst (λ (x : ℤ). x ≤ℤ pos cap) (sym (ap (λ (x : Collateral). x.limit) at))
                    (fair same);
            }
        | inr e ↦
            let at : get_or p no_collateral (insert who c m) ≡ get_or p no_collateral m =
              found ∙ rw e refl in
            record {
              committed = ap (λ (x : Collateral). x.committed) at ∙ v.committed;
              limited =
                  subst (λ (x : ℤ). x ≤ℤ pos cap) (sym (ap (λ (x : Collateral). x.limit) at))
                    v.limited;
            }
      ]

  on_set_collateral-Backed :
      (who : ParticipantId) (limit : ℤ) (o : Out)
      → (who ≡ p → limit ≤ℤ pos cap)
      → Backed p cap big o
      → Backed p cap big (on_set_collateral who limit o)
  unfolding on_set_collateral push_event
  on_set_collateral-Backed who limit o fair v = record {
    ledger = record {
      holds = limited-Holds who limit o.state.collateral _ fair v.ledger.holds;
      within = v.ledger.within;
      ladder_fit = v.ledger.ladder_fit;
      fills_fit = v.ledger.fills_fit;
    };
    windowed = v.windowed;
    high = v.high;
  }

  -- What a bid that was taken from the ladder had reserved goes back.
  cancel_found-Backed :
      (who : ParticipantId) (key : IdempotencyKey) (r : Option RestingBid × PriceLadder) (o : Out)
      → Removed
          (λ (b : RestingBid). owes p b.participant b.limit b.qty)
          RestFit
          who
          key
          o.state.resting
          r
      → Backed p cap big o
      → Backed p cap big
          (cancel_found who key r.0 (record o { state = record o.state { resting = r.1 } }))
  unfolding cancel_found push_event set_outcome
  cancel_found-Backed who key (some bid, left) o (mine, fit, kept, sums) v =
      let owed_back : owes p bid.participant bid.limit bid.qty ≡ owes p who bid.limit bid.qty =
        rw mine refl in
      record {
        ledger = record {
          holds =
              release-Holds p cap who bid.limit bid.qty o.state.collateral _ fit
                (omega (arith, sums, owed_back, v.ledger.within, big))
                (subst (λ n. Holds p cap n o.state.collateral) (omega (arith, sums, owed_back))
                  v.ledger.holds);
          within = omega (arith, sums, v.ledger.within);
          ladder_fit = kept;
          fills_fit = v.ledger.fills_fit;
        };
        windowed = v.windowed;
        high = v.high;
      }
  cancel_found-Backed who key (none, left) o same v =
      let kept : Backed p cap big (record o { state = record o.state { resting = left } }) =
        rw same v in
      option_cases (Backed p cap big) (lookup key o.state.outcomes) _ _ (λ _. kept) (λ _ _. kept)

  on_cancel_resting-Backed :
      (who : ParticipantId) (key : IdempotencyKey) (o : Out)
      → Backed p cap big o
      → Backed p cap big (on_cancel_resting who key o)
  unfolding on_cancel_resting
  on_cancel_resting-Backed who key o v =
      cancel_found-Backed who key (remove o.state.resting who key) o
        (remove-Removed (λ (b : RestingBid). owes p b.participant b.limit b.qty) RestFit who key
          o.state.resting v.ledger.ladder_fit)
        v

  reject_window-IsCalm : (o : Out) → Backed p cap big o → IsCalm p cap (reject_window o).state
  unfolding reject_window
  reject_window-IsCalm o v =
      let s = o.state in
      option_cases (λ (r : Out). IsCalm p cap r.state) s.window _ _
        (λ e. record {
          ledger = subst (λ (w : Option OpenWindow). Ledger p cap (open_owed p w) s) e v.ledger;
          no_window = e;
          high = v.high;
        })
        (λ w e.
          reject_bids-IsCalm p cap big w (record o { state = record s { window = none } }) refl
            (subst (IsBackedWindow s.config s.now s.fills) e v.windowed).1
            (taken-Ledger p cap big w s e v.ledger) v.high)

  on_cancel-Backed : (o : Out) → Backed p cap big o → Backed p cap big (on_cancel o)
  unfolding on_cancel push_event
  on_cancel-Backed o v =
      let stopped : Out = record o { state = record o.state { status = Status.cancelled } } in
      let halted : Backed p cap big stopped = record {
        ledger = record {
          holds = v.ledger.holds;
          within = v.ledger.within;
          ladder_fit = v.ledger.ladder_fit;
          fills_fit = v.ledger.fills_fit;
        };
        windowed = v.windowed;
        high = inl cancelled_is_terminal;
      } in
      let calm = reject_window-IsCalm stopped halted in
      let same = drain_resting-SameFills RejectReason.not_live (reject_window stopped) in
      if_cases (Backed p cap big) (is_terminal o.state.status) _ _ (λ _. v)
        (λ _. IsCalm-IsBacked (record {
          ledger =
              drain_resting-Ledger p cap big RejectReason.not_live (reject_window stopped) 0
                calm.ledger;
          no_window = same.window ∙ calm.no_window;
          high = rw (same.status, same.config, same.now, same.fills) calm.high;
        }))

  -- Every command, in a state that is ready for it.
  pub handle-Backed :
      (cmd : Command) (seq : Seq) (ts : Nanos) (o : Out)
      → IsFairCommand p cap cmd
      → IsReady ts o.state
      → IsOrdered o.state.resting
      → Backed p cap big o
      → Backed p cap big (handle cmd seq ts o)
  unfolding handle
  handle-Backed Command.opening seq ts o fair ready ordered v = on_open-Backed o v
  handle-Backed (Command.set_collateral who limit) seq ts o fair ready ordered v =
      on_set_collateral-Backed who limit o fair v
  handle-Backed (Command.submit_bid who key qty kind) seq ts o fair ready ordered v =
      on_bid-Backed p cap big seq ts who key qty kind o fair ready v
  handle-Backed (Command.cancel_resting who key) seq ts o fair ready ordered v =
      on_cancel_resting-Backed who key o v
  handle-Backed Command.tick seq ts o fair ready ordered v =
      on_tick-Backed p cap big ts o ready ordered v
  handle-Backed Command.cancel seq ts o fair ready ordered v = on_cancel-Backed o v
