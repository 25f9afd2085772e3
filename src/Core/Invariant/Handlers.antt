-- ===== src/Core/Invariant/Handlers.antt =====
-- The handlers of ticks and cancellation (crates/auction-core/src/state.rs), and so every handler, keep
-- the invariant.
use dutch_auction.Base.{
  ℕ, ◌≤◌, ◌≡◌, refl, ◌∙◌, arith, List, [], ◌∷◌, Option, some, none, inl, inr, Bool, true, false,
  if_cases, Option-cases, ◌==◌, ◌&&◌, if◌then◌else◌, ltb,
}
use dutch_auction.Base.Int.{eq_of_parts}
use dutch_auction.Proto.Ids.{Seq}
use dutch_auction.Proto.Money.{Price}
use dutch_auction.Proto.Time.{Nanos}
use dutch_auction.Proto.Status.{cancelled, accepts_bids, is_terminal, RejectReason}
use dutch_auction.Core.Schedule
use dutch_auction.Core.Schedule.{at_floor}
use dutch_auction.Core.Config.{AuctionConfig, price_at, floor_price}
use dutch_auction.Core.Command.{Command}
use dutch_auction.Core.Event.{Event}
use dutch_auction.Core.Ladder.{RestingBid, drain_triggered}
use dutch_auction.Core.Bid.{OpenWindow, PendingBid}
use dutch_auction.Core.State.{AuctionState, Out, window_bounds, push_pending}
use dutch_auction.Core.Clear.{drain_resting}
use dutch_auction.Core.Clear.Uniform.{drain_resting-SameFills}
use dutch_auction.Core.Matching.{flush_window}
use dutch_auction.Core.Matching.Settle.{reject_bids-SameFills}
use dutch_auction.Core.Apply.{
  join_window, trigger_resting, close_at_floor, on_tick, reject_window, on_cancel,
  close_elapsed_window, handle,
}
use dutch_auction.Core.Invariant.{IsSound, IsSound-SameFills}
use dutch_auction.Core.Invariant.Flush.{
  no_window, no_window-IsSound, flush_window-IsSound, clear-IsSound, SameClock, SameClock-refl,
  flush_window-SameClock,
}
use dutch_auction.Core.Invariant.Bids.{
  Sound, quiet-IsSound, unpriced, on_open-IsSound, on_set_collateral-IsSound, push_event-IsSound,
  push_pending-IsSound, push_pending-terms, on_bid-IsSound, on_cancel_resting-IsSound,
}

abbrev pub triggered : RestingBid → PendingBid
triggered b = record {
  seq = b.seq;
  participant = b.participant;
  key = b.key;
  qty = b.qty;
  priority = b.limit;
  reserve_price = b.limit;
  resting_limit = some b.limit;
}

join_window-IsSound :
    (c : AuctionConfig) (ts : Nanos) (bids : List RestingBid) (s : AuctionState)
    → s.config ≡ c
    → ts ≤ s.now
    → IsSound s
    → IsSound (join_window (window_bounds c ts).0 (window_bounds c ts).1 bids s)
unfolding join_window
join_window-IsSound c ts [] s same h v = v
join_window-IsSound c ts (b ∷ bids) s same h v =
    let b' : PendingBid = triggered b in
    let (config, now) = push_pending-terms (window_bounds c ts).0 (window_bounds c ts).1 b' s in
    join_window-IsSound c ts bids (push_pending (window_bounds c ts).0 (window_bounds c ts).1 b' s)
      (config ∙ same) (rw now h) (push_pending-IsSound c ts b' s same h v)

join_window-terms :
    (index : ℕ) (price : Price) (bids : List RestingBid) (s : AuctionState)
    → ((join_window index price bids s).config ≡ s.config)
      × ((join_window index price bids s).now ≡ s.now)
unfolding join_window
join_window-terms index price [] s = (refl, refl)
join_window-terms index price (b ∷ bids) s =
    let b' : PendingBid = triggered b in
    let (config, now) = push_pending-terms index price b' s in
    let (configs, nows) = join_window-terms index price bids (push_pending index price b' s) in
    (configs ∙ config, nows ∙ now)

pub trigger_resting-IsSound :
    (ts : Nanos) (o : Out) → ts ≤ o.state.now → Sound o → Sound (trigger_resting ts o)
unfolding trigger_resting
trigger_resting-IsSound ts o h v =
    let s = o.state in
    let (bids, ladder) = drain_triggered s.resting (price_at s.config ts) in
    join_window-IsSound s.config ts bids (record s { resting = ladder }) refl h
      (quiet-IsSound s ladder s.outcomes s.collateral v)

trigger_resting-SameClock :
    (ts : Nanos) (o : Out)
    → ((trigger_resting ts o).state.config ≡ o.state.config)
      × ((trigger_resting ts o).state.now ≡ o.state.now)
unfolding trigger_resting
trigger_resting-SameClock ts o =
    let s = o.state in
    let (bids, ladder) = drain_triggered s.resting (price_at s.config ts) in
    join_window-terms (window_bounds s.config ts).0 (window_bounds s.config ts).1 bids
      (record s { resting = ladder })

-- At the floor the clock shows the floor price.
floor_shown :
    (c : AuctionConfig) (ts : Nanos) → at_floor c.schedule ts ≡ true → floor_price c ≡ price_at c ts
unfolding at_floor floor_price price_at
floor_shown c ts e =
    eq_of_parts c.schedule.floor_price (Schedule.price_at c.schedule ts) (ground arith)

and_right : (a b : Bool) → (a && b) ≡ true → b ≡ true
and_right a b e = ground arith

close_at_floor-IsSound :
    (ts : Nanos) (o : Out) → ts ≤ o.state.now → Sound o → Sound (close_at_floor ts o)
unfolding close_at_floor
close_at_floor-IsSound ts o h v =
    if_cases Sound (accepts_bids o.state.status && at_floor o.state.config.schedule ts) _ _
      (λ e.
        if_cases Sound (accepts_bids (flush_window o).state.status) _ _
          (λ l.
            let same = flush_window-SameClock o v in
            clear-IsSound (floor_price o.state.config) (flush_window o) (flush_window-IsSound o v) (
              rw (same.config, same.now)
                (
                  ts,
                  h,
                  inl (floor_shown o.state.config ts (and_right (accepts_bids o.state.status) _ e)),
                )))
          (λ _. flush_window-IsSound o v))
      (λ _. v)

on_tick-IsSound : (ts : Nanos) (o : Out) → ts ≤ o.state.now → Sound o → Sound (on_tick ts o)
unfolding on_tick
on_tick-IsSound ts o h v =
    if_cases Sound (accepts_bids o.state.status) _ _
      (λ _.
        let joined : Out = trigger_resting ts o in
        let sound = trigger_resting-IsSound ts o h v in
        let in_time : ts ≤ joined.state.now = rw (trigger_resting-SameClock ts o).1 h in
        if_cases (λ r. Sound (close_at_floor ts r)) (o.state.config.batch_window == 0)
          (flush_window joined) joined
          (λ _.
            close_at_floor-IsSound ts (flush_window joined)
              (rw (flush_window-SameClock joined sound).now in_time)
              (flush_window-IsSound joined sound))
          (λ _. close_at_floor-IsSound ts joined in_time sound))
      (λ _. v)

pub reject_window-IsSound : (o : Out) → Sound o → Sound (reject_window o)
unfolding reject_window
reject_window-IsSound o v = elim (Option-cases o.state.window) [
  | inl e ↦ rw (e, reject_window) v
  | inr (w, e) ↦
      rw (e, reject_window)
        (IsSound-SameFills
          (reject_bids-SameFills RejectReason.not_live w.bids
            (record o { state = no_window o.state }))
          (no_window-IsSound o.state v))
]

on_cancel-IsSound : (o : Out) → Sound o → Sound (on_cancel o)
unfolding on_cancel
on_cancel-IsSound o v =
    if_cases Sound (is_terminal o.state.status) _ _ (λ _. v)
      (λ e.
        let o1 : Out = record o { state = record o.state { status = cancelled } } in
        push_event-IsSound Event.cancelled (drain_resting RejectReason.not_live (reject_window o1))
          (IsSound-SameFills (drain_resting-SameFills RejectReason.not_live (reject_window o1))
            (reject_window-IsSound o1 (stopped e))))
  where
    stopped : is_terminal o.state.status ≡ false → IsSound (record o.state { status = cancelled })
    stopped e = record {
      small = v.small;
      conserved = v.conserved;
      settled = unpriced o.state.config o.state.now o.state.status o.state.fills e v.settled;
      windowed = v.windowed;
      supplied = λ p. cc;
      untouched = λ p. cc;
    }

-- `close_elapsed_window` leaves the state or flushes the window.
close_elapsed_cases {ℓ} :
    (P : Out → Type ℓ) (ts : Nanos) (o : Out)
    → P o
    → P (flush_window o)
    → P (close_elapsed_window ts o)
unfolding close_elapsed_window
close_elapsed_cases P ts o kept flushed = cases o.state.window
  where
    cases :
        (w : Option OpenWindow)
        → P (elim w [
          | none ↦ o
          | some w ↦ if ltb w.index (window_bounds o.state.config ts).0 then flush_window o else o
        ])
    cases none = kept
    cases (some w) =
        if_cases P (ltb w.index (window_bounds o.state.config ts).0) (flush_window o) o
          (λ _. flushed) (λ _. kept)

pub close_elapsed_window-IsSound :
    (ts : Nanos) (o : Out) → Sound o → Sound (close_elapsed_window ts o)
close_elapsed_window-IsSound ts o v = close_elapsed_cases Sound ts o v (flush_window-IsSound o v)

pub close_elapsed_window-SameClock :
    (ts : Nanos) (o : Out) → Sound o → SameClock o.state (close_elapsed_window ts o).state
close_elapsed_window-SameClock ts o v =
    close_elapsed_cases (λ r. SameClock o.state r.state) ts o (SameClock-refl o.state)
      (flush_window-SameClock o v)

-- Every command, handled at an instant that has come, keeps the invariant.
pub handle-IsSound :
    (cmd : Command) (seq : Seq) (ts : Nanos) (o : Out)
    → ts ≤ o.state.now
    → Sound o
    → Sound (handle cmd seq ts o)
unfolding handle
handle-IsSound Command.opening seq ts o h v = on_open-IsSound o v
handle-IsSound (Command.set_collateral p limit) seq ts o h v = on_set_collateral-IsSound p limit o v
handle-IsSound (Command.submit_bid p key qty kind) seq ts o h v =
    on_bid-IsSound seq ts p key qty kind o h v
handle-IsSound (Command.cancel_resting p key) seq ts o h v = on_cancel_resting-IsSound p key o v
handle-IsSound Command.tick seq ts o h v = on_tick-IsSound ts o h v
handle-IsSound Command.cancel seq ts o h v = on_cancel-IsSound o v
