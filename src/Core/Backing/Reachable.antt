-- ===== src/Core/Backing/Reachable.antt =====
-- docs/invariants.md, I9, of every state that commands can bring an auction to.
use dutch_auction.Base.{
  ℕ, ◌≤◌, ◌≡◌, refl, ◌∙◌, subst, arith, false, Option, none, some, List, inl, inr, if_cases,
  option_cases, ltb, max, lookup,
}
use dutch_auction.Base.Int.{pos, pos_part}
use dutch_auction.Base.Word.{i64_max, u64_max}
use dutch_auction.Proto.Ids.{ParticipantId, Seq}
use dutch_auction.Proto.Money.{Price}
use dutch_auction.Proto.Time.{Nanos}
use dutch_auction.Core.Config.{AuctionConfig}
use dutch_auction.Core.Command.{Command}
use dutch_auction.Core.Event.{Fill}
use dutch_auction.Core.Ladder.{new_ladder}
use dutch_auction.Core.Bid.{OpenWindow}
use dutch_auction.Core.State.{AuctionState, Out, new_state, collateral_of, window_bounds}
use dutch_auction.Core.Matching.{flush_window}
use dutch_auction.Core.Apply.{apply, begin, close_elapsed_window}
use dutch_auction.Core.Invariant.{IsWindowed}
use dutch_auction.Core.Invariant.Flush.{flush_window-IsSound, flush_window-SameClock}
use dutch_auction.Core.Invariant.Bids.{Sound}
use dutch_auction.Core.Invariant.Reachable.{
  Reach, apply_inv, begin-IsSound, Reach-IsSound, apply-Applied,
}
use dutch_auction.Core.Invariant.Rested.{close_elapsed_window-Ordered, resting-IsOrdered}
use dutch_auction.Core.Backing.{owed}
use dutch_auction.Core.Backing.Prices.{
  IsFair, parts_mono, window_falls, window_signless, index_grows, same_window,
}
use dutch_auction.Core.Backing.Flushed.{
  IsBackedWindow, IsBacked, IsCalm-IsBacked, IsAbove-lower, flush_window-IsCalm,
}
use dutch_auction.Core.Backing.Bids.{IsCurrent, IsReady, supply_fits, Backed}
use dutch_auction.Core.Backing.Handled.{IsFairCommand, handle-Backed}

-- The states that `apply` can bring a new auction to by commands that name no negative limit for a
-- bid, at instants that a u64 holds, when no limit for the collateral of `p` is over `cap`.
pub data FairReach (config : AuctionConfig) (p : ParticipantId) (cap : ℕ)
    : AuctionState → Type 0 where
  created : FairReach config p cap (new_state config)
  applied :
      {s : AuctionState} {o : Out} (seq : Seq) (ts : Nanos) (cmd : Command)
      → FairReach config p cap s
      → IsFairCommand p cap cmd
      → ts ≤ u64_max
      → apply s seq ts cmd ≡ some o
      → FairReach config p cap o.state

FairReach-Reach :
    {config : AuctionConfig} {p : ParticipantId} {cap : ℕ} {s : AuctionState}
    → FairReach config p cap s
    → Reach config s
FairReach-Reach FairReach.created = Reach.created
FairReach-Reach (FairReach.applied seq ts cmd r fair small e) =
    Reach.applied seq ts cmd (FairReach-Reach r) e

-- A window that has not elapsed is the one of the present.
not_elapsed :
    (c : AuctionConfig) (ts now : Nanos) (w : OpenWindow)
    → now ≡ ts
    → IsWindowed c now (some w)
    → ltb w.index (window_bounds c ts).0 ≡ false
    → w.price ≡ (window_bounds c ts).1
not_elapsed c ts now w same (t, come, index, price) kept =
    let grown = index_grows c t ts (omega arith) in
    price ∙ same_window c t ts (ground (arith, grown))

module _ (p : ParticipantId) (cap : ℕ) (big : cap ≤ i64_max) where
  -- The prices of windows fall, so what was high stays high.
  begin-Backed :
      (seq : Seq) (ts : Nanos) (s : AuctionState)
      → IsFair s.config
      → IsBacked p cap s
      → Backed p cap big (begin seq ts s)
  unfolding begin
  begin-Backed seq ts s fair v =
      let later : Nanos = max ts s.now in
      let low : Price = (window_bounds s.config later).1 in
      let falling : pos_part low ≤ pos_part (window_bounds s.config s.now).1 =
        parts_mono low (window_bounds s.config s.now).1 (window_signless s.config fair later)
          (window_falls s.config fair s.now later (omega arith)) in
      record {
        ledger = record {
          holds = v.ledger.holds;
          within = v.ledger.within;
          ladder_fit = v.ledger.ladder_fit;
          fills_fit = v.ledger.fills_fit;
        };
        windowed = lower s.config s.now later s.fills s.window falling v.windowed;
        high = elim v.high [
          | inl ended ↦ inl ended
          | inr high ↦ inr (IsAbove-lower low (window_bounds s.config s.now).1 s.fills falling high)
        ];
      }
    where
      lower :
          (c : AuctionConfig) (m n : Nanos) (fills : List Fill) (w : Option OpenWindow)
          → pos_part (window_bounds c n).1 ≤ pos_part (window_bounds c m).1
          → IsBackedWindow c m fills w
          → IsBackedWindow c n fills w
      lower c m n fills none h v = tt
      lower c m n fills (some w) h (signless, fit, above, low) = (signless, fit, above, omega arith)

  -- Once an elapsed window is closed, the state is ready for the command.
  close_elapsed_window-IsReady :
      (ts : Nanos) (o : Out)
      → IsFair o.state.config
      → o.state.now ≡ ts
      → ts ≤ u64_max
      → Sound o
      → Backed p cap big o
      → IsReady ts (close_elapsed_window ts o).state × Backed p cap big (close_elapsed_window ts o)
  unfolding close_elapsed_window
  close_elapsed_window-IsReady ts o fair in_time small sound v =
      let s = o.state in
      let P : Out → Type 0 = λ r. IsReady ts r.state × Backed p cap big r in
      let kept : IsCurrent (window_bounds s.config ts).1 s.window → P o = λ current. (
        record {
          fair = fair;
          in_time = in_time;
          small_time = small;
          sound = sound;
          current = current;
        },
        v,
      ) in
      option_cases P s.window o _ (λ e. kept (rw e tt))
        λ w e.
          if_cases P (ltb w.index (window_bounds s.config ts).0) (flush_window o) o
            (λ _.
              let calm = flush_window-IsCalm p cap big o (supply_fits s sound) v in
              let same = flush_window-SameClock o sound in
              (
                record {
                  fair = rw same.config fair;
                  in_time = same.now ∙ in_time;
                  small_time = small;
                  sound = flush_window-IsSound o sound;
                  current = rw calm.no_window tt;
                },
                IsCalm-IsBacked calm,
              ))
            (λ going.
              let windowed = subst (IsWindowed s.config s.now) e sound.windowed in
              kept (rw e (not_elapsed s.config ts s.now w in_time windowed going)))

  -- What `apply` keeps.
  pub record IsKept (s : AuctionState) : Type 0 where
    pub backed : IsBacked p cap s
    pub small_time : s.now ≤ u64_max

  apply-IsKept :
      {config : AuctionConfig} (s : AuctionState) (seq : Seq) (ts : Nanos) (cmd : Command) {o : Out}
      → Reach config s
      → config.total_supply ≤ u64_max
      → IsFair config
      → IsFairCommand p cap cmd
      → ts ≤ u64_max
      → apply s seq ts cmd ≡ some o
      → IsKept s
      → IsKept o.state
  unfolding begin
  apply-IsKept {config} s seq ts cmd {o} r supply fair fair_cmd small e v =
      let (sound, same) = Reach-IsSound supply r in
      let fair' : IsFair s.config = rw same fair in
      let now : Nanos = max ts s.now in
      let begun : Out = begin seq ts s in
      let in_range : now ≤ u64_max = omega (arith, small, v.small_time) in
      let (ready, backed) =
        close_elapsed_window-IsReady now begun fair' refl in_range (begin-IsSound seq ts s sound)
          (begin-Backed seq ts s fair' v.backed) in
      let ordered = close_elapsed_window-Ordered now begun (resting-IsOrdered r) in
      let handled =
        handle-Backed p cap big cmd seq now (close_elapsed_window now begun) fair_cmd ready ordered
          backed in
      record {
        backed = subst (Backed p cap big) (apply_inv s seq ts cmd e).1 handled;
        small_time = rw (apply-Applied s seq ts cmd e sound).now in_range;
      }

  new_state-IsKept : (config : AuctionConfig) → IsKept (new_state config)
  unfolding new_state new_ladder lookup
  new_state-IsKept config = record {
    backed = record {
      ledger = record {
        holds = record { committed = refl; limited = omega arith };
        within = omega arith;
        ladder_fit = tt;
        fills_fit = tt;
      };
      windowed = tt;
      high = inr tt;
    };
    small_time = omega arith;
  }

  pub FairReach-IsKept :
      {config : AuctionConfig} {s : AuctionState}
      → config.total_supply ≤ u64_max
      → IsFair config
      → FairReach config p cap s
      → IsKept s
  FairReach-IsKept supply fair FairReach.created = new_state-IsKept _
  FairReach-IsKept supply fair (FairReach.applied {s} seq ts cmd r fair_cmd small e) =
      apply-IsKept s seq ts cmd (FairReach-Reach r) supply fair fair_cmd small e
        (FairReach-IsKept supply fair r)

-- The terms are published, the floor is not negative, and the supply is one that a u64 holds. In every
-- state that commands bring the new auction to, at instants that a u64 holds, when no bid rests at a
-- negative limit and no limit posted for `p` is over `cap`, which an i64 holds: what `p` has committed is
-- the cost of its bids in the window, of those on the ladder, and of its fills, and is at most `cap`.
pub collateral_backed :
    {config : AuctionConfig} {s : AuctionState} (p : ParticipantId) (cap : ℕ)
    → cap ≤ i64_max
    → config.total_supply ≤ u64_max
    → IsFair config
    → FairReach config p cap s
    → ((collateral_of s p).committed ≡ pos (owed p s)) × (owed p s ≤ cap)
unfolding collateral_of
collateral_backed {config} {s} p cap big supply fair r =
    let v = (FairReach-IsKept p cap big supply fair r).backed.ledger in
    (v.holds.committed ∙ same (omega arith), omega (arith, v.within))
  where
    same : {m n : ℕ} → m ≡ n → pos m ≡ pos n
    same e = rw e refl
