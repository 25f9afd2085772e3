-- ===== src/Core/Backing/Flushed.antt =====
-- crates/auction-core/src/state.rs, `flush_window`: what backs the bids of a window backs their fills.
use dutch_auction.Base.{
  ℕ, ◌+◌, ◌≤◌, ◌≡◌, refl, ◌∙◌, sym, ap, subst, arith, true, Option, none, some, List, ◌⊎◌, inl, inr,
  All, All-append, All-mono, if_cases, option_cases,
}
use dutch_auction.Base.Int.{pos_part, neg_part}
use dutch_auction.Base.Word.{i64_max, u64_max}
use dutch_auction.Proto.Ids.{ParticipantId}
use dutch_auction.Proto.Money.{Price}
use dutch_auction.Proto.Time.{Nanos}
use dutch_auction.Proto.Status.{Status, RejectReason, accepts_bids, is_terminal}
use dutch_auction.Core.Config.{AuctionConfig}
use dutch_auction.Core.Event.{Fill}
use dutch_auction.Core.Bid.{PendingBid, OpenWindow}
use dutch_auction.Core.State.{AuctionState, Out, window_bounds}
use dutch_auction.Core.Clear.{clear}
use dutch_auction.Core.Clear.Uniform.{IsAt, clear-ClearedAt}
use dutch_auction.Core.Matching.{
  Matched, sort_bids, match_window, settle_bids, settle_window, reject_bids, flush_window,
}
use dutch_auction.Core.Matching.Levels.{length-match_window}
use dutch_auction.Core.Matching.Asked.{match_window-AtMostAsked, total-sort_bids, All-sort_bids}
use dutch_auction.Core.Matching.Settle.{settle_bids-Settles, reject_bids-SameFills}
use dutch_auction.Core.Backing.{owes, IsFit, Holds, window_owed, open_owed, BidFit, Ledger}
use dutch_auction.Core.Backing.Settled.{settle_bids-Ledger, reject_bids-Ledger}
use dutch_auction.Core.Backing.Cleared.{IsAbove, clear-Ledger}

-- The fills of an auction that goes on are at the price of the current window or above.
abbrev pub IsHigh : AuctionState → Type 0
IsHigh s = (is_terminal s.status ≡ true) ⊎ All (IsAbove (window_bounds s.config s.now).1) s.fills

-- An open window has bids that were reserved at its price or above, and so are the fills so far.
abbrev pub IsBackedWindow : AuctionConfig → Nanos → List Fill → Option OpenWindow → Type 0
IsBackedWindow c now fills none = Unit
IsBackedWindow c now fills (some w) =
    (neg_part w.price ≡ 0)
    × All (BidFit w.price) w.bids
    × All (IsAbove w.price) fills
    × (pos_part (window_bounds c now).1 ≤ pos_part w.price)

pub record IsBacked (p : ParticipantId) (cap : ℕ) (s : AuctionState) : Type 0 where
  pub ledger : Ledger p cap (open_owed p s.window) s
  pub windowed : IsBackedWindow s.config s.now s.fills s.window
  pub high : IsHigh s

-- A state without a window.
pub record IsCalm (p : ParticipantId) (cap : ℕ) (s : AuctionState) : Type 0 where
  pub ledger : Ledger p cap 0 s
  pub no_window : s.window ≡ none
  pub high : IsHigh s

pub IsCalm-IsBacked :
    {p : ParticipantId} {cap : ℕ} {s : AuctionState} → IsCalm p cap s → IsBacked p cap s
IsCalm-IsBacked {p} {cap} {s} v = record {
  ledger =
      subst (λ (w : Option OpenWindow). Ledger p cap (open_owed p w) s) (sym v.no_window) v.ledger;
  windowed = rw v.no_window tt;
  high = v.high;
}

pub IsAbove-lower :
    (low high : Price) (fills : List Fill)
    → pos_part low ≤ pos_part high
    → All (IsAbove high) fills
    → All (IsAbove low) fills
IsAbove-lower low high fills h v =
    All-mono (IsAbove high) (IsAbove low) fills (λ f above. omega arith) v

IsAbove-IsAt :
    (price : Price) (fills : List Fill) → All (IsAt price) fills → All (IsAbove price) fills
IsAbove-IsAt price fills v =
    All-mono (IsAt price) (IsAbove price) fills (λ f at. rw at (omega arith)) v

pub ended : {st : Status} → st ≡ Status.cleared → is_terminal st ≡ true
unfolding is_terminal
ended e = ap is_terminal e

module _ (p : ParticipantId) (cap : ℕ) (big : cap ≤ i64_max) where
  settle_window-IsCalm :
      (w : OpenWindow) (o : Out)
      → o.state.window ≡ none
      → o.state.supply_remaining ≤ u64_max
      → IsBackedWindow o.state.config o.state.now o.state.fills (some w)
      → Ledger p cap (window_owed p w.bids) o.state
      → IsCalm p cap (settle_window w o).state
  unfolding settle_window
  settle_window-IsCalm w o gone small (signless, fit, above, falling) v =
      let s = o.state in
      let bids = sort_bids w.bids in
      let m : Matched = match_window bids s.supply_remaining in
      let taken : Out = record o { state = record s { supply_remaining = m.supply } } in
      let settled : Out = settle_bids w.price m.exhausted bids m.allocs taken in
      let len = length-match_window w.bids s.supply_remaining in
      let f = λ (b : PendingBid). owes p b.participant b.reserve_price b.qty in
      let same = total-sort_bids f w.bids in
      let before : Ledger p cap (window_owed p bids + 0) taken.state = record {
        holds = subst (λ n. Holds p cap n s.collateral) (omega (arith, same)) v.holds;
        within = omega (arith, same, v.within);
        ladder_fit = v.ladder_fit;
        fills_fit = v.fills_fit;
      } in
      let ledger : Ledger p cap 0 settled.state =
        settle_bids-Ledger p cap big w.price m.exhausted bids m.allocs taken 0 signless
          (All-sort_bids (BidFit w.price) w.bids fit) len
          (match_window-AtMostAsked bids s.supply_remaining small) before in
      let done = settle_bids-Settles w.price m.exhausted bids m.allocs taken len in
      let higher : All (IsAbove w.price) settled.state.fills = rw done.fills (
        All-append (IsAbove w.price) s.fills done.added above
          (IsAbove-IsAt w.price done.added done.at_price)) in
      let c = clear-ClearedAt w.price settled in
      if_cases (λ (r : Out). IsCalm p cap r.state) m.exhausted (clear w.price settled) settled
        (λ _. record {
          ledger = clear-Ledger p cap big w.price settled signless higher ledger;
          no_window = c.window ∙ done.window ∙ gone;
          high = inl (ended c.status);
        })
        (λ _. record {
          ledger = ledger;
          no_window = done.window ∙ gone;
          high = inr (
              rw (done.config, done.now)
                (IsAbove-lower (window_bounds s.config s.now).1 w.price settled.state.fills falling
                  higher));
        })

  -- A window whose bids are turned away.
  pub reject_bids-IsCalm :
      (w : OpenWindow) (o : Out)
      → o.state.window ≡ none
      → All (BidFit w.price) w.bids
      → Ledger p cap (window_owed p w.bids) o.state
      → IsHigh o.state
      → IsCalm p cap (reject_bids RejectReason.not_live w.bids o).state
  reject_bids-IsCalm w o gone fit ledger high =
      let same = reject_bids-SameFills RejectReason.not_live w.bids o in
      let again : Ledger p cap (window_owed p w.bids + 0) o.state =
        subst (λ n. Ledger p cap n o.state) (omega arith) ledger in
      record {
        ledger =
            reject_bids-Ledger p cap big RejectReason.not_live w.bids o 0
              (All-mono (BidFit w.price) (λ (b : PendingBid). IsFit b.reserve_price b.qty) w.bids
                (λ b h. h.0) fit)
              again;
        no_window = same.window ∙ gone;
        high = rw (same.status, same.config, same.now, same.fills) high;
      }

  -- What an open window owes, once it is taken out of the state.
  pub taken-Ledger :
      (w : OpenWindow) (s : AuctionState)
      → s.window ≡ some w
      → Ledger p cap (open_owed p s.window) s
      → Ledger p cap (window_owed p w.bids) (record s { window = none })
  taken-Ledger w s e v =
      let whole = subst (λ (x : Option OpenWindow). Ledger p cap (open_owed p x) s) e v in
      record {
        holds = whole.holds;
        within = whole.within;
        ladder_fit = whole.ladder_fit;
        fills_fit = whole.fills_fit;
      }

  pub flush_window-IsCalm :
      (o : Out)
      → o.state.supply_remaining ≤ u64_max
      → IsBacked p cap o.state
      → IsCalm p cap (flush_window o).state
  unfolding flush_window
  flush_window-IsCalm o small v =
      let s = o.state in
      let taken : Out = record o { state = record s { window = none } } in
      option_cases (λ (r : Out). IsCalm p cap r.state) s.window o _
        (λ e. record {
          ledger = subst (λ (w : Option OpenWindow). Ledger p cap (open_owed p w) s) e v.ledger;
          no_window = e;
          high = v.high;
        })
        λ w e.
          let backed = subst (IsBackedWindow s.config s.now s.fills) e v.windowed in
          let open_ledger = taken-Ledger w s e v.ledger in
          if_cases (λ (r : Out). IsCalm p cap r.state) (accepts_bids s.status) _ _
            (λ _. settle_window-IsCalm w taken refl small backed open_ledger)
            (λ _. reject_bids-IsCalm w taken refl backed.1 open_ledger v.high)
