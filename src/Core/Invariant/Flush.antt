-- ===== src/Core/Invariant/Flush.antt =====
-- `flush_window` and `clear` keep the invariant.
use dutch_auction.Base.{
  ◌+◌, ◌≤◌, ◌<◌, ◌≡◌, refl, sym, ◌∙◌, ap, total_of-append, arith, List, some, none, inl, inr, true,
  false, if_cases, sum, Option-cases,
}
use dutch_auction.Base.Word.{u64_max}
use dutch_auction.Proto.Money.{Price, is_zero}
use dutch_auction.Proto.Status.{Status, pending, live, accepts_bids, RejectReason}
use dutch_auction.Core.Config.{AuctionConfig}
use dutch_auction.Core.Event.{Fill}
use dutch_auction.Core.Bid.{OpenWindow, PendingBid}
use dutch_auction.Core.State.{AuctionState, Out}
use dutch_auction.Core.Clear.{clear}
use dutch_auction.Core.Clear.Uniform.{units, clear-ClearedAt}
use dutch_auction.Core.Matching.{
  Matched, match_window, sort_bids, settle_bids, settle_window, flush_window, reject_bids,
}
use dutch_auction.Core.Matching.Levels.{Accounts, match_window-Accounts}
use dutch_auction.Core.Matching.Settle.{Settles, settle_bids-Settles, reject_bids-SameFills}
use dutch_auction.Core.Invariant.{
  IsSound, IsWindowed, IsClockPrice, IsSound-SameFills, IsSound-ClearedAt,
}

abbrev pub no_window : AuctionState → AuctionState
no_window s = record s { window = none }

pub no_window-IsSound : (s : AuctionState) → IsSound s → IsSound (no_window s)
no_window-IsSound s v = record {
  small = v.small;
  conserved = v.conserved;
  settled = v.settled;
  windowed = tt;
  supplied = v.supplied;
  untouched = v.untouched;
}

live_of : (st : Status) → accepts_bids st ≡ true → st ≡ live
unfolding accepts_bids
live_of st h = ground arith

live_not_pending : ¬ (live ≡ pending)
live_not_pending e = cc

-- The terms, the time and the sequence number, which only `apply` sets.
pub record SameClock (s t : AuctionState) : Type 0 where
  pub config : t.config ≡ s.config
  pub now : t.now ≡ s.now
  pub last_seq : t.last_seq ≡ s.last_seq

pub SameClock-refl : (s : AuctionState) → SameClock s s
SameClock-refl s = record { config = refl; now = refl; last_seq = refl }

pub SameClock-trans : {s t u : AuctionState} → SameClock s t → SameClock t u → SameClock s u
SameClock-trans p q = record {
  config = q.config ∙ p.config;
  now = q.now ∙ p.now;
  last_seq = q.last_seq ∙ p.last_seq;
}

-- A live auction has no clearing price.
no_price : (s : AuctionState) → IsSound s → s.status ≡ live → s.clearing_price ≡ none
no_price s v e = rw e at v.settled

-- Clearing a live auction at a price of its clock keeps the invariant.
pub clear-IsSound :
    (p : Price) (o : Out)
    → IsSound o.state
    → IsClockPrice o.state.config o.state.now p
    → IsSound (clear p o).state
clear-IsSound p o v clock =
    IsSound-ClearedAt (clear-ClearedAt p o) v.small v.conserved v.windowed clock

-- Settled bids of a live auction leave it sound, unless the supply is gone.
module _ (w : OpenWindow) (o : Out) (v : IsSound o.state) (is_live : o.state.status ≡ live)
    (priced : IsWindowed o.state.config o.state.now (some w)) (closed : o.state.window ≡ none) where
  abbrev bids : List PendingBid
  bids = sort_bids w.bids

  abbrev m : Matched
  m = match_window (sort_bids w.bids) o.state.supply_remaining

  abbrev settled : Out
  settled =
      settle_bids w.price m.exhausted bids m.allocs
        (record o { state = record o.state { supply_remaining = m.supply } })

  accounts : Accounts bids o.state.supply_remaining false m
  accounts =
      match_window-Accounts bids o.state.supply_remaining (omega (arith, v.small, v.conserved))

  settles :
      Settles w.price (sum m.allocs) (record o.state { supply_remaining = m.supply }) settled.state
  settles =
      settle_bids-Settles w.price m.exhausted bids m.allocs
        (record o { state = record o.state { supply_remaining = m.supply } }) accounts.complete

  conserved :
      units settled.state.fills + settled.state.supply_remaining ≡ settled.state.config.total_supply
  conserved =
      let a = accounts.conserved in
      let u = settles.units_added in
      let e : units settled.state.fills ≡ units o.state.fills + units settles.added =
        ap units settles.fills
        ∙ total_of-append (λ (f : Fill). f.qty) o.state.fills settles.added in
      let q = settles.supply_remaining in
      let c = ap (λ (x : AuctionConfig). x.total_supply) settles.config in
      omega (arith, v.conserved)

  fits : settled.state.config.total_supply ≤ u64_max
  fits = rw settles.config v.small

  supplied_after :
      m.exhausted ≡ false → 0 < o.state.config.total_supply → 0 < settled.state.supply_remaining
  unfolding is_zero
  supplied_after e h =
      let before = v.supplied is_live h in
      let t : m.exhausted ≡ is_zero m.supply = accounts.tracked (ground arith) in
      rw settles.supply_remaining (ground arith)

  not_exhausted : m.exhausted ≡ false → IsSound settled.state
  not_exhausted e = record {
    small = fits;
    conserved = conserved;
    settled =
        rw (settles.config, settles.now, settles.status, settles.clearing_price, is_live)
          (no_price o.state v is_live);
    windowed = rw (settles.config, settles.now, settles.window, closed) tt;
    supplied = λ l h. supplied_after e (rw settles.config at h);
    untouched = λ p. absurd (live_not_pending (sym is_live ∙ sym settles.status ∙ p));
  }

  settled_price : IsClockPrice settled.state.config settled.state.now w.price
  settled_price = let (t, le, _, e) = priced in rw (settles.config, settles.now) (t, le, inr e)

  clear_after : m.exhausted ≡ true → IsSound (clear w.price settled).state
  clear_after e =
      IsSound-ClearedAt (clear-ClearedAt w.price settled) fits conserved
        (rw (settles.config, settles.now, settles.window, closed) tt) settled_price

  pub settle_window-IsSound : IsSound (settle_window w o).state
  unfolding settle_window
  settle_window-IsSound =
      if_cases (λ (r : Out). IsSound r.state) m.exhausted (clear w.price settled) settled
        clear_after not_exhausted

  pub settle_window-SameClock : SameClock o.state (settle_window w o).state
  unfolding settle_window
  settle_window-SameClock =
      if_cases (λ (r : Out). SameClock o.state r.state) m.exhausted (clear w.price settled) settled
        (λ _.
          let c = clear-ClearedAt w.price settled in
          record {
            config = c.config ∙ settles.config;
            now = c.now ∙ settles.now;
            last_seq = c.last_seq ∙ settles.last_seq;
          })
        (λ _. record { config = settles.config; now = settles.now; last_seq = settles.last_seq })

-- `flush_window` in two cases: the auction is live and the window is settled, or nothing is matched.
flush_cases {ℓ} :
    (P : Out → Type ℓ) (o : Out)
    → IsSound o.state
    → P o
    → ((w : OpenWindow)
        → P (reject_bids RejectReason.not_live w.bids (record o { state = no_window o.state })))
    → ((w : OpenWindow)
        → o.state.status ≡ live
        → IsWindowed o.state.config o.state.now (some w)
        → P (settle_window w (record o { state = no_window o.state })))
    → P (flush_window o)
unfolding flush_window
flush_cases P o v closed refused settled = elim (Option-cases o.state.window) [
  | inl e ↦ rw (e, flush_window) closed
  | inr (w, e) ↦
      rw (e, flush_window)
        (if_cases P (accepts_bids o.state.status) _ _
          (λ l. settled w (live_of o.state.status l) (rw e at v.windowed)) (λ _. refused w))
]

-- `flush_window` keeps the invariant, whatever the status of the auction.
pub flush_window-IsSound : (o : Out) → IsSound o.state → IsSound (flush_window o).state
flush_window-IsSound o v =
    flush_cases (λ r. IsSound r.state) o v v
      (λ w.
        IsSound-SameFills
          (reject_bids-SameFills RejectReason.not_live w.bids
            (record o { state = no_window o.state }))
          (no_window-IsSound o.state v))
      (λ w l priced.
        settle_window-IsSound w (record o { state = no_window o.state })
          (no_window-IsSound o.state v) l priced refl)

pub flush_window-SameClock : (o : Out) → IsSound o.state → SameClock o.state (flush_window o).state
flush_window-SameClock o v =
    flush_cases (λ r. SameClock o.state r.state) o v (SameClock-refl o.state)
      (λ w.
        let same =
          reject_bids-SameFills RejectReason.not_live w.bids
            (record o { state = no_window o.state }) in
        record { config = same.config; now = same.now; last_seq = same.last_seq })
      (λ w l priced.
        let c =
          settle_window-SameClock w (record o { state = no_window o.state })
            (no_window-IsSound o.state v) l priced refl in
        record { config = c.config; now = c.now; last_seq = c.last_seq })
