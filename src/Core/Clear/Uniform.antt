-- ===== src/Core/Clear/Uniform.antt =====
-- crates/auction-core/src/state.rs, `clear`: one price for every fill, and no unit lost.
use dutch_auction.Base.{ℕ, ◌≡◌, refl, ◌∙◌, ap, arith, List, [], ◌∷◌, All, total_of, some}
use dutch_auction.Base.Int.{eq_of_parts}
use dutch_auction.Core.Event.{Fill}
use dutch_auction.Core.Ladder.{RestingBid, drain_all}
use dutch_auction.Core.State.{AuctionState, Out, push_event, give_back}
use dutch_auction.Core.State.Terms.{
  SameTerms, SameTerms-refl, SameTerms-trans, SameFills, SameFills-refl, SameFills-trans,
  give_back-SameFills, with_resting-SameFills,
}
use dutch_auction.Core.Clear.{
  reprice_fill, reprice_all, reprice_fills, turn_away, drain_resting, announce_cleared, clear,
}
use dutch_auction.Proto.Money.{Price}
use dutch_auction.Proto.Status.{Status, RejectReason}

abbrev pub IsAt : Price → Fill → Type 0
IsAt p f = f.price ≡ p

-- The units on record.
abbrev pub units : List Fill → ℕ
units = total_of (λ (f : Fill). f.qty)

pub turn_away-SameFills :
    (reason : RejectReason) (bids : List RestingBid) (o : Out)
    → SameFills o.state (turn_away reason bids o).state
unfolding turn_away
turn_away-SameFills reason [] o = SameFills-refl o.state
turn_away-SameFills reason (b ∷ bids) o =
    SameFills-trans (give_back-SameFills b.participant b.limit b.qty b.key reason o)
      (turn_away-SameFills reason bids (give_back b.participant b.limit b.qty b.key reason o))

pub drain_resting-SameFills :
    (reason : RejectReason) (o : Out) → SameFills o.state (drain_resting reason o).state
unfolding drain_resting drain_all
drain_resting-SameFills reason o =
    let s = o.state in
    let (bids, ladder) = drain_all s.resting in
    SameFills-trans (with_resting-SameFills s ladder)
      (turn_away-SameFills reason bids (record o { state = record s { resting = ladder } }))

reprice_fill-SameTerms :
    (p : Price) (f : Fill) (o : Out) → SameTerms o.state (reprice_fill p f o).1.state
unfolding reprice_fill push_event
reprice_fill-SameTerms p f o = ground arith

reprice_fill_lem :
    (p : Price) (f : Fill) (o : Out)
    → (IsAt p (reprice_fill p f o).0) × ((reprice_fill p f o).0.qty ≡ f.qty)
unfolding reprice_fill push_event
reprice_fill_lem p f o = ground (arith, eq_of_parts f.price p)

reprice_all-SameTerms :
    (p : Price) (fs : List Fill) (o : Out) → SameTerms o.state (reprice_all p fs o).1.state
unfolding reprice_all
reprice_all-SameTerms p [] o = SameTerms-refl o.state
reprice_all-SameTerms p (f ∷ fs) o =
    SameTerms-trans (reprice_fill-SameTerms p f o)
      (reprice_all-SameTerms p fs (reprice_fill p f o).1)

reprice_all_lem :
    (p : Price) (fs : List Fill) (o : Out)
    → All (IsAt p) (reprice_all p fs o).0 × (units (reprice_all p fs o).0 ≡ units fs)
unfolding reprice_all
reprice_all_lem p [] o = (tt, refl)
reprice_all_lem p (f ∷ fs) o =
    let (at, same) = reprice_fill_lem p f o in
    let (ats, sames) = reprice_all_lem p fs (reprice_fill p f o).1 in ((at, ats), omega arith)

-- After clearing at `p`: the state is cleared at `p`, every fill carries `p`, and the fills hold as many
-- units as before; the terms, the supply and the window are untouched.
pub record ClearedAt (p : Price) (s t : AuctionState) : Type 0 where
  pub config : t.config ≡ s.config
  pub status : t.status ≡ Status.cleared
  pub supply_remaining : t.supply_remaining ≡ s.supply_remaining
  pub clearing_price : t.clearing_price ≡ some p
  pub window : t.window ≡ s.window
  pub last_seq : t.last_seq ≡ s.last_seq
  pub now : t.now ≡ s.now
  pub uniform : All (IsAt p) t.fills
  pub conserved : units t.fills ≡ units s.fills

-- Clearing at a price ends the auction as cleared at that price, puts every fill at it, keeps the units
-- of the fills, and leaves the terms, the supply, the window, the clock and the last sequence number
-- as they were.
pub clear-ClearedAt : (p : Price) (o : Out) → ClearedAt p o.state (clear p o).state
unfolding clear reprice_fills announce_cleared push_event
clear-ClearedAt p o =
    let s = o.state in
    let o1 : Out = record o {
      state = record s { status = Status.cleared; clearing_price = some p };
    } in
    let o2 : Out = reprice_fills p o1 in
    let r = reprice_all-SameTerms p s.fills o1 in
    let (ats, same) = reprice_all_lem p s.fills o1 in
    let d = drain_resting-SameFills RejectReason.unfilled o2 in
    record {
      config = d.config ∙ r.config;
      status = d.status ∙ r.status;
      supply_remaining = d.supply_remaining ∙ r.supply_remaining;
      clearing_price = d.clearing_price ∙ r.clearing_price;
      window = d.window ∙ r.window;
      last_seq = d.last_seq ∙ r.last_seq;
      now = d.now ∙ r.now;
      uniform = rw d.fills ats;
      conserved = ap units d.fills ∙ same;
    }
