-- ===== src/Core/Backing/Settled.antt =====
-- crates/auction-core/src/state.rs: giving back and settling bids keeps the collateral exact.
use dutch_auction.Base.{
  BTreeMap, ℕ, ◌+◌, ◌-◌, ◌*◌, ◌≤◌, ◌<◌, ◌≡◌, subst, arith, Bool, false, Option, ◌==◌, ◌||◌, List,
  [], ◌∷◌, All, All-append, length, if_cases, option_cases, Bool-cases, inl, inr, total_of-append,
}
use dutch_auction.Base.Int.{pos_part, neg_part}
use dutch_auction.Base.Word.{i64_max}
use dutch_auction.Proto.Ids.{ParticipantId, IdempotencyKey}
use dutch_auction.Proto.Money.{Price, Qty, is_zero, saturating_sub_qty}
use dutch_auction.Proto.Status.{RejectReason}
use dutch_auction.Core.Event.{Fill}
use dutch_auction.Core.Ladder.{RestingBid, drain_all}
use dutch_auction.Core.Ladder.Sums.{
  sum-requeue, AllBids-requeue, sum-highest_first, All-highest_first,
}
use dutch_auction.Core.Bid.{PendingBid, Collateral}
use dutch_auction.Core.State.{
  AuctionState, Out, push_event, set_outcome, reject, release, commit, give_back,
}
use dutch_auction.Core.Clear.{turn_away, drain_resting}
use dutch_auction.Core.Matching.{requeue_remainder, fill_bid, settle_bid, settle_bids, reject_bids}
use dutch_auction.Core.Matching.Asked.{AtMostAsked}
use dutch_auction.Core.Backing.{
  owes, IsFit, Holds, window_owed, rests_owed, ladder_owed, fills_owed, RestFit, FillFit, Ledger,
  LimitIs, BidFit,
}
use dutch_auction.Core.Backing.Moves.{release-Holds, commit-Holds}

pub mul_mono : (x y q r : ℕ) → x ≤ y → q ≤ r → x * q ≤ y * r
mul_mono x y q r h k = grind arith

pub IsFit-mono :
    (price high : Price) (qty more : Qty)
    → neg_part price ≡ 0
    → pos_part price ≤ pos_part high
    → qty ≤ more
    → IsFit high more
    → IsFit price qty
IsFit-mono price high qty more signless h k fit = record {
  signless = signless;
  small_qty = omega (arith, fit.small_qty);
  small_cost =
      omega (arith, fit.small_cost, mul_mono (pos_part price) (pos_part high) qty more h k);
}

-- A part at a lower price, and the rest at the same price, cost no more than the whole.
pub owes_split :
    (p who : ParticipantId) (price high : Price) (part rest whole : Qty)
    → pos_part price ≤ pos_part high
    → part + rest ≤ whole
    → owes p who price part + owes p who high rest ≤ owes p who high whole
unfolding owes
owes_split p who price high part rest whole h k = elim (Bool-cases (who == p)) [
  | inl e ↦ rw e (
      omega (
        arith,
        mul_mono (pos_part price) (pos_part high) part part h (omega arith),
        mul_mono (pos_part high) (pos_part high) (part + rest) whole (omega arith) k,
      ))
  | inr e ↦ rw e (omega arith)
]

pos_of : (n : ℕ) → is_zero n ≡ false → 0 < n
unfolding is_zero
pos_of n h = ground arith

or_false : (a b : Bool) → a || b ≡ false → a ≡ false
or_false a b h = ground arith

module _ (p : ParticipantId) (cap : ℕ) (big : cap ≤ i64_max) where
  -- The collateral of one bid goes back.
  pub give_back-Ledger :
      (who : ParticipantId) (price : Price) (qty : Qty) (key : IdempotencyKey)
      (reason : RejectReason) (o : Out) (extra : ℕ)
      → IsFit price qty
      → Ledger p cap (owes p who price qty + extra) o.state
      → Ledger p cap extra (give_back who price qty key reason o).state
  unfolding give_back reject push_event set_outcome
  give_back-Ledger who price qty key reason o extra fit v = record {
    holds =
        release-Holds p cap who price qty o.state.collateral _ fit (omega (arith, v.within, big))
          (subst (λ n. Holds p cap n o.state.collateral) (omega arith) v.holds);
    within = omega (arith, v.within);
    ladder_fit = v.ladder_fit;
    fills_fit = v.fills_fit;
  }

  shift : (s : AuctionState) (m n : ℕ) → m ≡ n → Ledger p cap m s → Ledger p cap n s
  shift s m n e v = subst (λ k. Ledger p cap k s) e v

  pub turn_away-Ledger :
      (reason : RejectReason) (bids : List RestingBid) (o : Out) (extra : ℕ)
      → All RestFit bids
      → Ledger p cap (rests_owed p bids + extra) o.state
      → Ledger p cap extra (turn_away reason bids o).state
  unfolding turn_away
  turn_away-Ledger reason [] o extra fit v = shift o.state _ _ (omega arith) v
  turn_away-Ledger reason (b ∷ bids) o extra fit v = turn_away-Ledger reason bids _ extra fit.1 (
      give_back-Ledger b.participant b.limit b.qty b.key reason o _ fit.0
        (shift o.state _ _ (omega arith) v))

  pub reject_bids-Ledger :
      (reason : RejectReason) (bids : List PendingBid) (o : Out) (extra : ℕ)
      → All (λ (b : PendingBid). IsFit b.reserve_price b.qty) bids
      → Ledger p cap (window_owed p bids + extra) o.state
      → Ledger p cap extra (reject_bids reason bids o).state
  unfolding reject_bids
  reject_bids-Ledger reason [] o extra fit v = shift o.state _ _ (omega arith) v
  reject_bids-Ledger reason (b ∷ bids) o extra fit v =
      reject_bids-Ledger reason bids _ extra fit.1 (
        give_back-Ledger b.participant b.reserve_price b.qty b.key reason o _ fit.0
          (shift o.state _ _ (omega arith) v))

  -- The ladder is emptied, and all that was reserved for it goes back.
  pub drain_resting-Ledger :
      (reason : RejectReason) (o : Out) (extra : ℕ)
      → Ledger p cap extra o.state
      → Ledger p cap extra (drain_resting reason o).state
  unfolding drain_resting drain_all
  drain_resting-Ledger reason o extra v =
      let s = o.state in
      let (bids, ladder) = drain_all s.resting in
      let f = λ (b : RestingBid). owes p b.participant b.limit b.qty in
      let same = sum-highest_first f s.resting.levels in
      let n : ℕ = rests_owed p bids + extra in
      turn_away-Ledger reason bids (record o { state = record s { resting = ladder } }) extra
        (All-highest_first RestFit s.resting.levels v.ladder_fit)
        (record {
          holds = subst (λ k. Holds p cap k s.collateral) (omega (arith, same)) v.holds;
          within = omega (arith, same, v.within);
          ladder_fit = tt;
          fills_fit = v.fills_fit;
        })

  requeue_remainder-Ledger :
      (b : PendingBid) (left : Qty) (ex : Bool) (s : AuctionState) (extra : ℕ)
      → LimitIs b.resting_limit b.reserve_price
      → IsFit b.reserve_price left
      → owes p b.participant b.reserve_price left
          + (extra + (ladder_owed p s.resting.levels + fills_owed p s.fills))
        ≤ cap
      → Ledger p cap extra s
      → Ledger p cap extra (requeue_remainder b left ex s)
  unfolding requeue_remainder
  requeue_remainder-Ledger b left ex s extra at fit room v =
      option_cases (Ledger p cap extra) b.resting_limit s _ (λ _. v)
        λ limit e.
          if_cases (Ledger p cap extra) (is_zero left || ex) s _ (λ _. v)
            λ kept.
              let same : limit ≡ b.reserve_price =
                subst (λ (l : Option Price). LimitIs l b.reserve_price) e at in
              let fit' : IsFit limit left = rw same fit in
              let who = b.participant in
              let base : ℕ = extra + (ladder_owed p s.resting.levels + fills_owed p s.fills) in
              let room' : owes p who limit left + base ≤ cap = rw same room in
              let bid : RestingBid = record {
                seq = b.seq;
                participant = who;
                key = b.key;
                qty = left;
                limit = limit;
              } in
              let more =
                sum-requeue (λ (c : RestingBid). owes p c.participant c.limit c.qty) s.resting bid
                  (or_false (is_zero left) ex kept) in
              record {
                holds =
                    subst (λ n. Holds p cap n (commit who limit left s.collateral))
                      (omega (arith, more))
                      (commit-Holds p cap who limit left s.collateral base fit'
                        (omega (arith, room', big)) v.holds);
                within = omega (arith, room', more);
                ladder_fit = AllBids-requeue RestFit s.resting bid fit' v.ladder_fit;
                fills_fit = v.fills_fit;
              }

  fill_bid-Ledger :
      (price : Price) (ex : Bool) (b : PendingBid) (alloc : ℕ) (o : Out) (extra : ℕ)
      → neg_part price ≡ 0
      → BidFit price b
      → alloc ≤ b.qty
      → is_zero alloc ≡ false
      → Ledger p cap (owes p b.participant b.reserve_price b.qty + extra) o.state
      → Ledger p cap extra (fill_bid price ex b alloc o).state
  unfolding fill_bid push_event set_outcome saturating_sub_qty
  fill_bid-Ledger price ex b alloc o extra signless (fit, low, at) asked some_alloc v =
      let s = o.state in
      let who = b.participant in
      let base : ℕ = extra + (ladder_owed p s.resting.levels + fills_owed p s.fills) in
      let split =
        owes_split p who price b.reserve_price alloc (b.qty - alloc) b.qty low (omega arith) in
      let f : Fill = record {
        id = s.next_fill_id;
        seq = b.seq;
        participant = who;
        key = b.key;
        qty = alloc;
        price = price;
      } in
      let more =
        total_of-append (λ (x : Fill). owes p x.participant x.price x.qty) s.fills (f ∷ []) in
      let taken = IsFit-mono price b.reserve_price alloc b.qty signless low asked fit in
      let rest =
        IsFit-mono b.reserve_price b.reserve_price (b.qty - alloc) b.qty fit.signless (omega arith)
          (omega arith) fit in
      let released =
        release-Holds p cap who b.reserve_price b.qty s.collateral base fit
          (omega (arith, v.within, big))
          (subst (λ n. Holds p cap n s.collateral) (omega arith) v.holds) in
      let m : BTreeMap Collateral =
        commit who price alloc (release who b.reserve_price b.qty s.collateral) in
      let paid =
        commit-Holds p cap who price alloc (release who b.reserve_price b.qty s.collateral) base
          taken (omega (arith, v.within, big, split)) released in
      requeue_remainder-Ledger b (b.qty - alloc) ex _ extra at rest
        (omega (arith, v.within, split, more))
        (record {
          holds = subst (λ n. Holds p cap n m) (omega (arith, more)) paid;
          within = omega (arith, v.within, split, more);
          ladder_fit = v.ladder_fit;
          fills_fit =
              All-append FillFit s.fills (f ∷ []) v.fills_fit
                ((taken, pos_of alloc some_alloc), tt);
        })

  settle_bid-Ledger :
      (price : Price) (ex : Bool) (b : PendingBid) (alloc : ℕ) (o : Out) (extra : ℕ)
      → neg_part price ≡ 0
      → BidFit price b
      → alloc ≤ b.qty
      → Ledger p cap (owes p b.participant b.reserve_price b.qty + extra) o.state
      → Ledger p cap extra (settle_bid price ex b alloc o).state
  unfolding settle_bid
  settle_bid-Ledger price ex b alloc o extra signless fit asked v =
      if_cases (λ (r : Out). Ledger p cap extra r.state) (is_zero alloc) _ _
        (λ _.
          give_back-Ledger b.participant b.reserve_price b.qty b.key RejectReason.supply_exhausted o
            extra fit.0 v)
        (λ e. fill_bid-Ledger price ex b alloc o extra signless fit asked e v)

  -- Settling a window moves what was reserved for its bids to the fills, or gives it back.
  pub settle_bids-Ledger :
      (price : Price) (ex : Bool) (bids : List PendingBid) (allocs : List ℕ) (o : Out) (extra : ℕ)
      → neg_part price ≡ 0
      → All (BidFit price) bids
      → length allocs ≡ length bids
      → AtMostAsked bids allocs
      → Ledger p cap (window_owed p bids + extra) o.state
      → Ledger p cap extra (settle_bids price ex bids allocs o).state
  unfolding settle_bids
  settle_bids-Ledger price ex (b ∷ bids) (a ∷ allocs) o extra signless fit len asked v =
      settle_bids-Ledger price ex bids allocs _ extra signless fit.1 (omega (arith, len)) asked.1 (
        settle_bid-Ledger price ex b a o _ signless fit.0 asked.0
          (shift o.state _ _ (omega arith) v))
  settle_bids-Ledger price ex [] [] o extra signless fit len asked v =
      shift o.state _ _ (omega arith) v
  settle_bids-Ledger price ex [] (a ∷ allocs) o extra signless fit len asked v =
      absurd (omega (arith, len))
  settle_bids-Ledger price ex (b ∷ bids) [] o extra signless fit len asked v =
      absurd (omega (arith, len))
