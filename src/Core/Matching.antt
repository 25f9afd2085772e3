-- ===== src/Core/Matching.antt =====
-- crates/auction-core/src/state.rs, `flush_window`: the matching of one batch window.
pub mod Levels
pub mod Settle
pub mod Priority
pub mod Asked
use dutch_auction.Base.{
  ℕ, zero, suc, ◌+◌, Bool, true, false, ◌||◌, none, some, List, [], ◌∷◌, ◌++◌, length, map, ltb,
  if◌then◌else◌, sum,
}
use dutch_auction.Base.Int.{ltb_ℤ, eq_ℤ}
use dutch_auction.Base.Word.{wrap_u64}
use dutch_auction.Proto.Money.{Price, Qty, is_zero, saturating_sub_qty}
use dutch_auction.Proto.Status.{RejectReason, accepts_bids}
use dutch_auction.Core.Event.{Fill, Outcome, Event}
use dutch_auction.Core.Ladder.{requeue}
use dutch_auction.Core.Bid.{PendingBid, OpenWindow}
use dutch_auction.Core.Allocate.{allocate}
use dutch_auction.Core.State.{
  AuctionState, Out, push_event, commit, release, set_outcome, give_back,
}
use dutch_auction.Core.Clear.{clear}

-- The order of the sort: price descending, then sequence number ascending.
unfoldable pub comes_before : PendingBid → PendingBid → Bool
comes_before a b =
    if ltb_ℤ b.priority a.priority
    then true
    else if ltb_ℤ a.priority b.priority
    then false
    else ltb a.seq b.seq

-- `sort_by`, which is stable: a bid goes behind those that do not come after it
unfoldable pub place : PendingBid → List PendingBid → List PendingBid
unfolding comes_before
place b [] = b ∷ []
place b (c ∷ rest) = if comes_before c b then c ∷ place b rest else b ∷ c ∷ rest

unfoldable pub sort_bids : List PendingBid → List PendingBid
unfolding place
sort_bids [] = []
sort_bids (b ∷ bids) = place b (sort_bids bids)

-- the inner `while`: the bids from the front that compete at one price, and the rest
unfoldable pub split_level : Price → List PendingBid → List PendingBid × List PendingBid
split_level p [] = ([], [])
split_level p (b ∷ bids) =
    let (level, rest) = split_level p bids in
    if eq_ℤ b.priority p then (b ∷ level, rest) else ([], b ∷ bids)

-- What the loop over the levels leaves: the allocations, the supply, and `exhausted`.
pub record Matched : Type 0 where
  pub allocs : List ℕ
  pub supply : Qty
  pub exhausted : Bool

-- `vec![0u64; n]`, on a level
abbrev pub zeros : List PendingBid → List ℕ
zeros = map (λ _. 0)

-- the body of the loop on one level
unfoldable pub match_level : List PendingBid → Qty → Bool → Matched
unfolding is_zero allocate saturating_sub_qty
match_level level supply exhausted =
    let allocs = allocate level supply in
    let left = saturating_sub_qty supply (sum allocs) in
    if is_zero supply
    then record { allocs = zeros level; supply = supply; exhausted = exhausted }
    else record { allocs = allocs; supply = left; exhausted = is_zero left }

-- the outer `while`, with one round of fuel for each level
unfoldable pub match_levels : ℕ → List PendingBid → Qty → Bool → Matched
unfolding split_level match_level
match_levels zero bids supply exhausted = record {
  allocs = [];
  supply = supply;
  exhausted = exhausted;
}
match_levels (suc fuel) [] supply exhausted = record {
  allocs = [];
  supply = supply;
  exhausted = exhausted;
}
match_levels (suc fuel) (b ∷ bids) supply exhausted =
    let (level, rest) = split_level b.priority (b ∷ bids) in
    let here = match_level level supply exhausted in
    let later = match_levels fuel rest here.supply here.exhausted in
    record {
      allocs = here.allocs ++ later.allocs;
      supply = later.supply;
      exhausted = later.exhausted;
    }

unfoldable pub match_window : List PendingBid → Qty → Matched
unfolding match_levels
match_window bids supply = match_levels (length bids) bids supply false

-- `requeue` of a resting bid's remainder, with its collateral
unfoldable pub requeue_remainder : PendingBid → Qty → Bool → AuctionState → AuctionState
unfolding commit requeue is_zero
requeue_remainder b remainder exhausted s = elim b.resting_limit [
  | none ↦ s
  | some limit ↦ if is_zero remainder || exhausted then s else record s {
    collateral = commit b.participant limit remainder s.collateral;
    resting = requeue s.resting (record {
      seq = b.seq;
      participant = b.participant;
      key = b.key;
      qty = remainder;
      limit = limit;
    });
  }
]

-- a bid that gets `alloc` units
unfoldable pub fill_bid : Price → Bool → PendingBid → ℕ → Out → Out
unfolding release commit set_outcome push_event requeue_remainder saturating_sub_qty
fill_bid price exhausted b alloc o =
    let s = o.state in
    let fill : Fill = record {
      id = s.next_fill_id;
      seq = b.seq;
      participant = b.participant;
      key = b.key;
      qty = alloc;
      price = price;
    } in
    let paid =
      commit b.participant price alloc (release b.participant b.reserve_price b.qty s.collateral) in
    let s' = set_outcome b.key (Outcome.filled alloc price) (record s {
      collateral = paid;
      next_fill_id = wrap_u64 (s.next_fill_id + 1);
      fills = s.fills ++ fill ∷ [];
    }) in
    let o' = push_event (Event.filled fill) (record o { state = s' }) in
    record o' { state = requeue_remainder b (saturating_sub_qty b.qty alloc) exhausted s' }

-- one round of the loop over the bids and their allocations
unfoldable pub settle_bid : Price → Bool → PendingBid → ℕ → Out → Out
unfolding fill_bid give_back is_zero
settle_bid price exhausted b alloc o =
    if is_zero alloc
    then give_back b.participant b.reserve_price b.qty b.key RejectReason.supply_exhausted o
    else fill_bid price exhausted b alloc o

unfoldable pub settle_bids : Price → Bool → List PendingBid → List ℕ → Out → Out
unfolding settle_bid
settle_bids price exhausted (b ∷ bids) (alloc ∷ allocs) o =
    settle_bids price exhausted bids allocs (settle_bid price exhausted b alloc o)
settle_bids price exhausted _ _ o = o

-- the bids of a window that cannot be matched any more
unfoldable pub reject_bids : RejectReason → List PendingBid → Out → Out
unfolding give_back
reject_bids reason [] o = o
reject_bids reason (b ∷ bids) o =
    reject_bids reason bids (give_back b.participant b.reserve_price b.qty b.key reason o)

-- `flush_window` once the window is taken and the auction accepts bids
unfoldable pub settle_window : OpenWindow → Out → Out
unfolding sort_bids match_window settle_bids clear
settle_window w o =
    let s = o.state in
    let bids = sort_bids w.bids in
    let m = match_window bids s.supply_remaining in
    let settled =
      settle_bids w.price m.exhausted bids m.allocs
        (record o { state = record s { supply_remaining = m.supply } }) in
    if m.exhausted then clear w.price settled else settled

-- `flush_window`
unfoldable pub flush_window : Out → Out
unfolding settle_window reject_bids accepts_bids
flush_window o =
    let s = o.state in
    let taken = record o { state = record s { window = none } } in
    elim s.window [
      | none ↦ o
      | some w ↦
          if accepts_bids s.status
          then settle_window w taken
          else reject_bids RejectReason.not_live w.bids taken
    ]
