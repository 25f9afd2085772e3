-- ===== src/Core/Matching/Settle.antt =====
-- crates/auction-core/src/state.rs, `flush_window`: what settling the bids of a window does to the fills
-- and the supply.
use mathlib.Core.List.{append_assoc, append-nil}
use dutch_auction.Base.{
  sym, BTreeMap, ℕ, ◌+◌, ◌≡◌, refl, ◌∙◌, arith, List, [], ◌∷◌, ◌++◌, Bool, sum, length, ◌==◌,
  Bool-cases, inl, inr, All, All-append, total_of-append,
}
use dutch_auction.Proto.Money.{Price, Qty, is_zero, saturating_sub_qty}
use dutch_auction.Proto.Status.{RejectReason}
use dutch_auction.Core.Event.{Fill, Outcome}
use dutch_auction.Core.Bid.{PendingBid, Collateral}
use dutch_auction.Core.State.{AuctionState, Out, push_event, set_outcome, give_back}
use dutch_auction.Core.State.Terms.{
  SameTerms, SameTerms-trans, SameFills, SameFills-refl, SameFills-trans, give_back-SameFills,
}
use dutch_auction.Core.Clear.Uniform.{IsAt, units}
use dutch_auction.Core.Matching.{requeue_remainder, fill_bid, settle_bid, settle_bids, reject_bids}

requeue_remainder-SameFills :
    (b : PendingBid) (left : Qty) (ex : Bool) (s : AuctionState)
    → SameFills s (requeue_remainder b left ex s)
unfolding requeue_remainder
requeue_remainder-SameFills b left ex s = ground arith

-- What settling does: it adds fills, all at the window price, that hold `n` units.
pub record Settles (p : Price) (n : ℕ) (s t : AuctionState) : Type 0 where
  pub terms : SameTerms s t
  pub open terms use *
  pub added : List Fill
  pub fills : t.fills ≡ s.fills ++ added
  pub at_price : All (IsAt p) added
  pub units_added : units added ≡ n

Settles-trans :
    {p : Price} {m n : ℕ} {s t u : AuctionState}
    → Settles p m s t
    → Settles p n t u
    → Settles p (m + n) s u
Settles-trans {p} {s = s} a b = record {
  terms = SameTerms-trans a.terms b.terms;
  added = a.added ++ b.added;
  fills = b.fills ∙ rw a.fills (append_assoc s.fills a.added b.added);
  at_price = All-append (IsAt p) a.added b.added a.at_price b.at_price;
  units_added =
      total_of-append (λ (f : Fill). f.qty) a.added b.added
      ∙ omega (arith, a.units_added, b.units_added);
}

-- An operation that leaves the fills alone settles nothing.
Settles-none : (p : Price) {s t : AuctionState} → SameFills s t → Settles p 0 s t
Settles-none p {s} same = record {
  terms = same.terms;
  added = [];
  fills = same.fills ∙ sym (append-nil s.fills);
  at_price = tt;
  units_added = refl;
}

one_fill :
    (f : Fill) (next : ℕ) (outcomes : BTreeMap Outcome) (collateral : BTreeMap Collateral)
    (s : AuctionState)
    → Settles f.price f.qty s (record s {
      fills = s.fills ++ f ∷ [];
      next_fill_id = next;
      outcomes = outcomes;
      collateral = collateral;
    })
one_fill f next outcomes collateral s = record {
  terms = record {
    config = refl;
    status = refl;
    supply_remaining = refl;
    clearing_price = refl;
    window = refl;
    last_seq = refl;
    now = refl;
  };
  added = f ∷ [];
  fills = refl;
  at_price = (refl, tt);
  units_added = omega arith;
}

Settles-then :
    {p : Price} {n : ℕ} {s t u : AuctionState} → Settles p n s t → SameFills t u → Settles p n s u
Settles-then a same = record {
  terms = SameTerms-trans a.terms same.terms;
  added = a.added;
  fills = same.fills ∙ a.fills;
  at_price = a.at_price;
  units_added = a.units_added;
}

fill_bid-Settles :
    (p : Price) (ex : Bool) (b : PendingBid) (alloc : ℕ) (o : Out)
    → Settles p alloc o.state (fill_bid p ex b alloc o).state
unfolding fill_bid push_event set_outcome
fill_bid-Settles p ex b alloc o =
    Settles-then (one_fill _ _ _ _ o.state)
      (requeue_remainder-SameFills b (saturating_sub_qty b.qty alloc) ex _)

settle_bid-Settles :
    (p : Price) (ex : Bool) (b : PendingBid) (alloc : ℕ) (o : Out)
    → Settles p alloc o.state (settle_bid p ex b alloc o).state
unfolding settle_bid is_zero
settle_bid-Settles p ex b alloc o = elim (Bool-cases (alloc == 0)) [
  | inl z ↦ rw z (
      let e : alloc ≡ 0 = ground arith in
      rw e (
        Settles-none p (
          give_back-SameFills b.participant b.reserve_price b.qty b.key
            RejectReason.supply_exhausted o)))
  | inr nz ↦ rw nz (fill_bid-Settles p ex b alloc o)
]

-- With one allocation for each bid, settling the bids of a window adds fills, all at the window price
-- and together of as many units as were allocated, keeps the fills there were, and leaves the terms,
-- the status, the supply, the window and the clock as they were.
pub settle_bids-Settles :
    (p : Price) (ex : Bool) (bids : List PendingBid) (allocs : List ℕ) (o : Out)
    → length allocs ≡ length bids
    → Settles p (sum allocs) o.state (settle_bids p ex bids allocs o).state
unfolding settle_bids
settle_bids-Settles p ex (b ∷ bids) (a ∷ allocs) o e =
    Settles-trans (settle_bid-Settles p ex b a o)
      (settle_bids-Settles p ex bids allocs (settle_bid p ex b a o) (omega (arith, e)))
settle_bids-Settles p ex [] [] o e = Settles-none p (SameFills-refl o.state)
settle_bids-Settles p ex [] (a ∷ allocs) o e = absurd (omega (arith, e))
settle_bids-Settles p ex (b ∷ bids) [] o e = absurd (omega (arith, e))

pub reject_bids-SameFills :
    (reason : RejectReason) (bids : List PendingBid) (o : Out)
    → SameFills o.state (reject_bids reason bids o).state
unfolding reject_bids
reject_bids-SameFills reason [] o = SameFills-refl o.state
reject_bids-SameFills reason (b ∷ bids) o =
    SameFills-trans (give_back-SameFills b.participant b.reserve_price b.qty b.key reason o) (
      reject_bids-SameFills reason bids
        (give_back b.participant b.reserve_price b.qty b.key reason o))
