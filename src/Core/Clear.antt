-- ===== src/Core/Clear.antt =====
-- crates/auction-core/src/state.rs, `clear`: the end of the auction at one price.
pub mod Uniform
use dutch_auction.Base.{none, some, List, [], ◌∷◌, if◌then◌else◌, BTreeMap, lookup, insert}
use dutch_auction.Base.Int.{eq_ℤ}
use dutch_auction.Base.Word.{saturating_sub_i64}
use dutch_auction.Proto.Money.{Price}
use dutch_auction.Proto.Ids.{IdempotencyKey}
use dutch_auction.Proto.Status.{Status, RejectReason}
use dutch_auction.Core.Event.{Fill, Outcome, Event}
use dutch_auction.Core.Ladder.{RestingBid, drain_all}
use dutch_auction.Core.State.{Out, push_event, release, give_back, total_filled}

unfoldable pub requote : Price → Outcome → Outcome
requote price (Outcome.filled qty _) = Outcome.filled qty price
requote price (Outcome.filled_then_cancelled qty _) = Outcome.filled_then_cancelled qty price
requote price other = other

-- `if let Some(..) = self.outcomes.get_mut(&fill.key) { *quoted_price = price }`
unfoldable pub requote_key : Price → IdempotencyKey → BTreeMap Outcome → BTreeMap Outcome
unfolding requote
requote_key price key m = elim (lookup key m) [
  | none ↦ m
  | some out ↦ insert key (requote price out) m
]

-- one round of the loop over the fills: the fill as it stands afterwards, and the rest of the state
unfoldable pub reprice_fill : Price → Fill → Out → Fill × Out
unfolding requote_key release push_event
reprice_fill price fill o =
    let s = o.state in
    let quoted = record s { outcomes = requote_key price fill.key s.outcomes } in
    if eq_ℤ fill.price price then (fill, record o { state = quoted }) else (
      record fill { price = price },
      push_event (Event.repriced fill.id fill.price price) (record o {
        state = record quoted {
          collateral =
              release fill.participant (saturating_sub_i64 fill.price price) fill.qty s.collateral;
        };
      }),
    )

-- the loop; `o` carries the state without its fills
unfoldable pub reprice_all : Price → List Fill → Out → List Fill × Out
unfolding reprice_fill
reprice_all price [] o = ([], o)
reprice_all price (fill ∷ fills) o =
    let (fill', o') = reprice_fill price fill o in
    let (fills', o'') = reprice_all price fills o' in (fill' ∷ fills', o'')

-- every bid that leaves the ladder without a fill is rejected and released
unfoldable pub turn_away : RejectReason → List RestingBid → Out → Out
unfolding give_back
turn_away reason [] o = o
turn_away reason (b ∷ bids) o =
    turn_away reason bids (give_back b.participant b.limit b.qty b.key reason o)

-- `for b in self.resting.drain_all()`
unfoldable pub drain_resting : RejectReason → Out → Out
unfolding turn_away drain_all
drain_resting reason o =
    let s = o.state in
    let (bids, ladder) = drain_all s.resting in
    turn_away reason bids (record o { state = record s { resting = ladder } })

-- the loop over `&mut self.fills`
unfoldable pub reprice_fills : Price → Out → Out
unfolding reprice_all
reprice_fills price o =
    let (fills, o') = reprice_all price o.state.fills o in
    let s = o'.state in record o' { state = record s { fills = fills } }

unfoldable pub announce_cleared : Price → Out → Out
unfolding push_event total_filled
announce_cleared price o =
    push_event (Event.cleared price (total_filled o.state) o.state.supply_remaining) o

unfoldable pub clear : Price → Out → Out
unfolding reprice_fills drain_resting announce_cleared
clear price o =
    let s = o.state in
    announce_cleared price (
      drain_resting RejectReason.unfilled (
        reprice_fills price
          (record o { state = record s { status = Status.cleared; clearing_price = some price } })))
