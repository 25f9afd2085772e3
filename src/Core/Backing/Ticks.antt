-- ===== src/Core/Backing/Ticks.antt =====
-- crates/auction-core/src/state.rs, `on_tick`: the bids that the clock has reached join the window, and
-- an auction at its floor is cleared.
use dutch_auction.Base.{
  ℕ, ◌+◌, ◌≤◌, ◌≡◌, refl, ◌∙◌, subst, arith, false, Option, some, List, [], ◌∷◌, inl, All, All-mono,
  All-back, if_cases, ◌==◌, ◌&&◌,
}
use dutch_auction.Base.Int.{pos_part, neg_part, ◌≤ℤ◌}
use dutch_auction.Base.Word.{i64_max}
use dutch_auction.Proto.Ids.{ParticipantId}
use dutch_auction.Proto.Money.{Price}
use dutch_auction.Proto.Time.{Nanos}
use dutch_auction.Proto.Status.{accepts_bids, is_terminal}
use dutch_auction.Core.Schedule.{at_floor}
use dutch_auction.Core.Config.{price_at, floor_price}
use dutch_auction.Core.Ladder.{
  RestingBid, PriceLadder, levels_below, levels_from, highest_first, drain_triggered,
}
use dutch_auction.Core.Ladder.Drain.{split_levels, from_price}
use dutch_auction.Core.Ladder.Drained.{limits_of}
use dutch_auction.Core.Ladder.Order.{IsOrdered, IsLevel}
use dutch_auction.Core.Ladder.Sums.{All-highest_first, AllBids-split, sum-split}
use dutch_auction.Core.Bid.{OpenWindow}
use dutch_auction.Core.State.{AuctionState, Out, window_bounds}
use dutch_auction.Core.Clear.Uniform.{clear-ClearedAt}
use dutch_auction.Core.Matching.{flush_window}
use dutch_auction.Core.Apply.{join_window, trigger_resting, close_at_floor, on_tick}
use dutch_auction.Core.Outcomes.InFlight.Flushed.{open_of_accepts}
use dutch_auction.Core.Invariant.Flush.{flush_window-IsSound, flush_window-SameClock}
use dutch_auction.Core.Invariant.Bids.{Sound}
use dutch_auction.Core.Invariant.Handlers.{triggered, trigger_resting-IsSound}
use dutch_auction.Core.Invariant.Clock.{trigger_resting-SameClock}
use dutch_auction.Core.Backing.{owes, Holds, open_owed, rests_owed, RestFit}
use dutch_auction.Core.Backing.Cleared.{IsAbove, clear-Ledger}
use dutch_auction.Core.Backing.Prices.{
  IsFair, parts_mono, window_below_clock, window_above_floor, window_signless,
}
use dutch_auction.Core.Backing.Flushed.{
  IsBackedWindow, IsCalm-IsBacked, IsAbove-lower, ended, flush_window-IsCalm,
}
use dutch_auction.Core.Backing.Bids.{
  IsCurrent, IsReady, supply_fits, fills_high, push_pending_backed, Backed,
}

-- The bids that a drain at `price` gives back.
drained_above :
    (price : Price) (l : PriceLadder)
    → IsOrdered l
    → All (λ (b : RestingBid). price ≤ℤ b.limit) (highest_first (levels_from price l.levels))
drained_above price l v =
    All-highest_first (λ (b : RestingBid). price ≤ℤ b.limit) (levels_from price l.levels)
      (limits_of (λ (q : Price). price ≤ℤ q) (levels_from price l.levels)
        (from_price price l.levels v.ascending)
        (All-back IsLevel (levels_below price l.levels) (levels_from price l.levels)
          (rw (split_levels price l.levels) v.own_level)))

-- The window that the drained bids join.
join_window_backed :
    (p : ParticipantId) (index : ℕ) (price : Price) (bids : List RestingBid) (s : AuctionState)
    → neg_part price ≡ 0
    → All RestFit bids
    → All (λ (b : RestingBid). pos_part price ≤ pos_part b.limit) bids
    → All (IsAbove price) s.fills
    → pos_part (window_bounds s.config s.now).1 ≤ pos_part price
    → IsCurrent price s.window
    → IsBackedWindow s.config s.now s.fills s.window
    → (w : Option OpenWindow) × (join_window index price bids s ≡ record s { window = w })
      × IsCurrent price w
      × IsBackedWindow s.config s.now s.fills w
      × (open_owed p w ≡ rests_owed p bids + open_owed p s.window)
unfolding join_window
join_window_backed p index price [] s signless fit high above low current v =
    (s.window, refl, current, v, omega arith)
join_window_backed p index price (b ∷ bids) s signless fit high above low current v =
    let (w, e, at, backed, sums) =
      push_pending_backed p index price (triggered b) s signless (fit.0, high.0, refl) above low
        current v in
    let (w', e', at', backed', sums') =
      join_window_backed p index price bids (record s { window = some w }) signless fit.1 high.1
        above low at backed in
    (w', rw e e', at', backed', omega (arith, sums, sums'))

module _ (p : ParticipantId) (cap : ℕ) (big : cap ≤ i64_max) where
  trigger_resting-Backed :
      (ts : Nanos) (o : Out)
      → IsReady ts o.state
      → IsOrdered o.state.resting
      → is_terminal o.state.status ≡ false
      → Backed p cap big o
      → Backed p cap big (trigger_resting ts o)
  unfolding trigger_resting drain_triggered
  trigger_resting-Backed ts o ready ordered going v =
      let s = o.state in
      let c = s.config in
      let (bids, ladder) = drain_triggered s.resting (price_at c ts) in
      let (index, price) = window_bounds c ts in
      let signless = window_signless c ready.fair ts in
      let split = AllBids-split RestFit (price_at c ts) s.resting.levels v.ledger.ladder_fit in
      let sums =
        sum-split (λ (b : RestingBid). owes p b.participant b.limit b.qty) (price_at c ts)
          s.resting.levels in
      let below = window_below_clock c ready.fair ts ready.small_time in
      let high : All (λ (b : RestingBid). pos_part price ≤ pos_part b.limit) bids =
        All-mono (λ (b : RestingBid). price_at c ts ≤ℤ b.limit)
          (λ (b : RestingBid). pos_part price ≤ pos_part b.limit) bids
          (λ b h. parts_mono price b.limit signless (omega (arith, below, h)))
          (drained_above (price_at c ts) s.resting ordered) in
      let above : All (IsAbove price) s.fills =
        subst (λ t. All (IsAbove (window_bounds c t).1) s.fills) ready.in_time
          (fills_high s going v.high) in
      let falling : pos_part (window_bounds c s.now).1 ≤ pos_part price =
        rw ready.in_time (omega arith) in
      let (w, e, _, backed, more) =
        join_window_backed p index price bids (record s { resting = ladder }) signless split.0 high
          above falling ready.current v.windowed in
      rw e (record {
        ledger = record {
          holds =
              subst (λ n. Holds p cap n s.collateral) (omega (arith, sums, more)) v.ledger.holds;
          within = omega (arith, sums, more, v.ledger.within);
          ladder_fit = split.1;
          fills_fit = v.ledger.fills_fit;
        };
        windowed = backed;
        high = v.high;
      })

  close_at_floor-Backed :
      (ts : Nanos) (o : Out)
      → IsFair o.state.config
      → Sound o
      → Backed p cap big o
      → Backed p cap big (close_at_floor ts o)
  unfolding close_at_floor
  close_at_floor-Backed ts o fair sound v =
      let s = o.state in
      let flushed : Out = flush_window o in
      let floor : Price = floor_price s.config in
      let calm = flush_window-IsCalm p cap big o (supply_fits s sound) v in
      let same = flush_window-SameClock o sound in
      let c = clear-ClearedAt floor flushed in
      if_cases (Backed p cap big) (accepts_bids s.status && at_floor s.config.schedule ts) _ _
        (λ _.
          if_cases (Backed p cap big) (accepts_bids flushed.state.status) _ _
            (λ going.
              let high : All (IsAbove (window_bounds s.config s.now).1) flushed.state.fills =
                subst (λ t. All (IsAbove (window_bounds s.config t).1) flushed.state.fills) same.now
                  (subst
                    (λ c. All (IsAbove (window_bounds c flushed.state.now).1) flushed.state.fills)
                    same.config
                    (fills_high flushed.state (open_of_accepts flushed.state.status going)
                      calm.high)) in
              let low = window_above_floor s.config fair s.now in
              let price : Price = (window_bounds s.config s.now).1 in
              IsCalm-IsBacked (record {
                ledger =
                    clear-Ledger p cap big floor flushed fair.signless
                      (IsAbove-lower floor price flushed.state.fills
                        (parts_mono floor price fair.signless low) high)
                      calm.ledger;
                no_window = c.window ∙ calm.no_window;
                high = inl (ended c.status);
              }))
            (λ _. IsCalm-IsBacked calm))
        (λ _. v)

  pub on_tick-Backed :
      (ts : Nanos) (o : Out)
      → IsReady ts o.state
      → IsOrdered o.state.resting
      → Backed p cap big o
      → Backed p cap big (on_tick ts o)
  unfolding on_tick
  on_tick-Backed ts o ready ordered v =
      let s = o.state in
      let joined : Out = trigger_resting ts o in
      let in_time : ts ≤ s.now = rw ready.in_time (omega arith) in
      let sound = trigger_resting-IsSound ts o in_time ready.sound in
      let same = trigger_resting-SameClock ts o in
      let fair : IsFair joined.state.config = rw same.config ready.fair in
      if_cases (Backed p cap big) (accepts_bids s.status) _ _
        (λ a.
          let j = trigger_resting-Backed ts o ready ordered (open_of_accepts s.status a) v in
          if_cases (λ (r : Out). Backed p cap big (close_at_floor ts r))
            (s.config.batch_window == 0) (flush_window joined) joined
            (λ _.
              close_at_floor-Backed ts (flush_window joined)
                (rw (flush_window-SameClock joined sound).config fair)
                (flush_window-IsSound joined sound)
                (IsCalm-IsBacked (flush_window-IsCalm p cap big joined (supply_fits _ sound) j)))
            (λ _. close_at_floor-Backed ts joined fair sound j))
        (λ _. v)
