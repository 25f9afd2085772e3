-- ===== src/Core/Apply.antt =====
-- crates/auction-core/src/state.rs, `apply` and the handlers of the commands.
use dutch_auction.Base.{
  ℕ, Bool, true, false, ◌&&◌, Option, none, some, List, [], ◌∷◌, ltb, ◌==◌, if◌then◌else◌, max,
  lookup, insert, get_or,
}
use dutch_auction.Base.Int.{ℤ, ltb_ℤ}
use dutch_auction.Proto.Ids.{ParticipantId, IdempotencyKey, Seq, next_seq}
use dutch_auction.Proto.Money.{Price, Qty, is_zero, abs_diff}
use dutch_auction.Proto.Time.{Nanos}
use dutch_auction.Proto.Status.{Status, RejectReason, accepts_bids, is_terminal, is_pending}
use dutch_auction.Core.Schedule.{at_floor}
use dutch_auction.Core.Config.{price_at, start_price, floor_price}
use dutch_auction.Core.Command.{BidKind, Command}
use dutch_auction.Core.Event.{Outcome, Event}
use dutch_auction.Core.Ladder.{RestingBid, insert_bid, drain_triggered, remove}
use dutch_auction.Core.Bid.{no_collateral, PendingBid}
use dutch_auction.Core.State.{
  AuctionState, Out, push_event, reserve, release, set_outcome, reject, window_bounds, push_pending,
}
use dutch_auction.Core.Clear.{clear, drain_resting}
use dutch_auction.Core.Matching.{flush_window, reject_bids}

unfoldable pub on_open : Out → Out
unfolding push_event is_pending start_price
on_open o =
    let s = o.state in
    if is_pending s.status
    then push_event (Event.opened (start_price s.config) s.config.total_supply)
        (record o { state = record s { status = Status.live } })
    else o

unfoldable pub on_set_collateral : ParticipantId → ℤ → Out → Out
unfolding push_event
on_set_collateral participant limit o =
    let s = o.state in
    let c = get_or participant no_collateral s.collateral in
    push_event (Event.collateral_set participant limit) (record o {
      state = record s {
        collateral = insert participant (record c { limit = limit }) s.collateral;
      };
    })

-- the arm `BidKind::Take` of `on_bid`
unfoldable pub on_take : Seq → Nanos → ParticipantId → IdempotencyKey → Qty → Price → Out → Out
unfolding price_at abs_diff reject window_bounds reserve push_pending set_outcome push_event
on_take seq ts participant key qty expected_price o =
    let s = o.state in
    let clock = price_at s.config ts in
    let (index, price) = window_bounds s.config ts in
    let (covered, collateral) = reserve participant price qty s.collateral in
    let reserved = record s { collateral = collateral } in
    let bid : PendingBid = record {
      seq = seq;
      participant = participant;
      key = key;
      qty = qty;
      priority = price;
      reserve_price = price;
      resting_limit = none;
    } in
    let queued = push_event (Event.queued key participant qty price) (record o {
      state = set_outcome key (Outcome.queued qty) (push_pending index price bid reserved);
    }) in
    if ltb s.config.price_tolerance (abs_diff clock expected_price)
    then reject key (RejectReason.price_moved clock) o
    else if covered
    then if s.config.batch_window == 0 then flush_window queued else queued
    else reject key RejectReason.insufficient_collateral (record o { state = reserved })

-- the arm `BidKind::Resting` of `on_bid`
unfoldable pub on_resting : Seq → Nanos → ParticipantId → IdempotencyKey → Qty → Price → Out → Out
unfolding price_at reject reserve insert_bid set_outcome push_event
on_resting seq ts participant key qty limit o =
    let s = o.state in
    let clock = price_at s.config ts in
    let (covered, collateral) = reserve participant limit qty s.collateral in
    let reserved = record s { collateral = collateral } in
    let bid : RestingBid = record {
      seq = seq;
      participant = participant;
      key = key;
      qty = qty;
      limit = limit;
    } in
    if ltb_ℤ clock limit
    then reject key (RejectReason.limit_above_clock clock) o
    else if covered
    then push_event (Event.rested key participant qty limit) (record o {
      state =
          set_outcome key (Outcome.resting qty)
            (record reserved { resting = insert_bid s.resting bid });
    })
    else reject key RejectReason.insufficient_collateral (record o { state = reserved })

unfoldable pub on_kind : BidKind → Seq → Nanos → ParticipantId → IdempotencyKey → Qty → Out → Out
unfolding on_take on_resting
on_kind (BidKind.take expected_price) seq ts participant key qty =
    on_take seq ts participant key qty expected_price
on_kind (BidKind.resting limit) seq ts participant key qty =
    on_resting seq ts participant key qty limit

unfoldable pub on_bid : Seq → Nanos → ParticipantId → IdempotencyKey → Qty → BidKind → Out → Out
unfolding push_event is_zero reject accepts_bids on_kind
on_bid seq ts participant key qty kind o =
    let s = o.state in
    elim (lookup key s.outcomes) [
      | some out ↦ push_event (Event.duplicate key out) o
      | none ↦
          if is_zero qty
          then reject key RejectReason.zero_quantity o
          else if accepts_bids s.status
          then on_kind kind seq ts participant key qty o
          else reject key RejectReason.not_live o
    ]

-- what `on_cancel_resting` does with what the ladder gave back
unfoldable pub cancel_found : ParticipantId → IdempotencyKey → Option RestingBid → Out → Out
unfolding release set_outcome push_event
cancel_found participant key (some bid) o =
    let s = o.state in
    push_event (Event.resting_cancelled key participant bid.qty) (record o {
      state =
          set_outcome key Outcome.cancelled
            (record s { collateral = release participant bid.limit bid.qty s.collateral });
    })
cancel_found participant key none o = elim (lookup key o.state.outcomes) [
  | some out ↦ push_event (Event.duplicate key out) o
  | none ↦ push_event (Event.rejected key RejectReason.unknown_bid) o
]

unfoldable pub on_cancel_resting : ParticipantId → IdempotencyKey → Out → Out
unfolding remove cancel_found
on_cancel_resting participant key o =
    let s = o.state in
    let (found, ladder) = remove s.resting participant key in
    cancel_found participant key found (record o { state = record s { resting = ladder } })

-- the loop of `on_tick` over the drained bids
unfoldable pub join_window : ℕ → Price → List RestingBid → AuctionState → AuctionState
unfolding push_pending
join_window index price [] s = s
join_window index price (bid ∷ bids) s = join_window index price bids (
    push_pending index price
      (record {
        seq = bid.seq;
        participant = bid.participant;
        key = bid.key;
        qty = bid.qty;
        priority = bid.limit;
        reserve_price = bid.limit;
        resting_limit = some bid.limit;
      })
      s)

-- the first part of `on_tick`: the bids that the clock has reached join the window
unfoldable pub trigger_resting : Nanos → Out → Out
unfolding price_at window_bounds drain_triggered join_window
trigger_resting ts o =
    let s = o.state in
    let (index, window_price) = window_bounds s.config ts in
    let (bids, ladder) = drain_triggered s.resting (price_at s.config ts) in
    record o { state = join_window index window_price bids (record s { resting = ladder }) }

-- the last part of `on_tick`: at the floor the auction settles and ends
unfoldable pub close_at_floor : Nanos → Out → Out
unfolding accepts_bids at_floor floor_price
close_at_floor ts o =
    let s = o.state in
    let flushed = flush_window o in
    if accepts_bids s.status && at_floor s.config.schedule ts
    then if accepts_bids flushed.state.status then clear (floor_price s.config) flushed else flushed
    else o

unfoldable pub on_tick : Nanos → Out → Out
unfolding accepts_bids trigger_resting close_at_floor
on_tick ts o =
    let s = o.state in
    let joined = trigger_resting ts o in
    if accepts_bids s.status
    then close_at_floor ts (if s.config.batch_window == 0 then flush_window joined else joined)
    else o

-- `if let Some(w) = self.window.take()` of `on_cancel`
unfoldable pub reject_window : Out → Out
unfolding reject_bids
reject_window o =
    let s = o.state in
    elim s.window [
      | none ↦ o
      | some w ↦
          reject_bids RejectReason.not_live w.bids (record o { state = record s { window = none } })
    ]

unfoldable pub on_cancel : Out → Out
unfolding is_terminal reject_window drain_resting push_event
on_cancel o =
    let s = o.state in
    if is_terminal s.status
    then o
    else push_event Event.cancelled (
        drain_resting RejectReason.not_live
          (reject_window (record o { state = record s { status = Status.cancelled } })))

unfoldable pub close_elapsed_window : Nanos → Out → Out
unfolding window_bounds
close_elapsed_window ts o =
    let s = o.state in
    elim s.window [
      | none ↦ o
      | some w ↦ if ltb w.index (window_bounds s.config ts).0 then flush_window o else o
    ]

unfoldable pub handle : Command → Seq → Nanos → Out → Out
unfolding on_open on_set_collateral on_bid on_cancel_resting on_tick on_cancel
handle Command.opening seq ts = on_open
handle (Command.set_collateral participant limit) seq ts = on_set_collateral participant limit
handle (Command.submit_bid participant key qty kind) seq ts = on_bid seq ts participant key qty kind
handle (Command.cancel_resting participant key) seq ts = on_cancel_resting participant key
handle Command.tick seq ts = on_tick ts
handle Command.cancel seq ts = on_cancel

-- the assertion of `apply`: `false` is a panic
unfoldable pub follows : Option Seq → Seq → Bool
unfolding next_seq
follows none seq = true
follows (some last) seq = elim (next_seq last) [ none ↦ false | some expected ↦ seq == expected ]

-- the clock of the state after a command stamped `ts`, and no events yet
unfoldable pub begin : Seq → Nanos → AuctionState → Out
begin seq ts s = record {
  state = record s { last_seq = some seq; now = max ts s.now };
  events = [];
}

-- `apply`: `none` is the panic on a sequence number that does not follow
unfoldable pub apply : AuctionState → Seq → Nanos → Command → Option Out
unfolding follows begin close_elapsed_window handle
apply s seq ts cmd =
    let now = max ts s.now in
    if follows s.last_seq seq
    then some (handle cmd seq now (close_elapsed_window now (begin seq ts s)))
    else none
