-- ===== src/Core/Ladder.antt =====
-- crates/auction-core/src/ladder.rs: the resting bids by limit price. The `BTreeMap<Price, VecDeque>`
-- is a list of levels in ascending order of price; each level is a list, oldest bid first.
pub mod Drain
pub mod Drained
pub mod Order
pub mod Removal
pub mod Sums
use dutch_auction.Base.{
  ℕ, Bool, true, false, ◌&&◌, Option, none, some, List, [], ◌∷◌, ◌++◌, length, ◌==◌, sum, map,
  if◌then◌else◌,
}
use dutch_auction.Base.Int.{ltb_ℤ, eq_ℤ}
use dutch_auction.Proto.Ids.{ParticipantId, IdempotencyKey, Seq}
use dutch_auction.Proto.Money.{Price, Qty, is_zero, saturating_add_qty, saturating_sub_qty}

pub record RestingBid : Type 0 where
  pub seq : Seq
  pub participant : ParticipantId
  pub key : IdempotencyKey
  pub qty : Qty
  pub limit : Price

abbrev pub Level : Type 0
Level = Price × List RestingBid

pub record PriceLadder : Type 0 where
  pub levels : List Level
  pub total_qty : Qty

-- `PriceLadder::new`
unfoldable pub new_ladder : PriceLadder
new_ladder = record { levels = []; total_qty = 0 }

unfoldable pub is_empty : PriceLadder → Bool
is_empty l = elim l.levels [ [] ↦ true | _ ∷ _ ↦ false ]

-- `len`
unfoldable pub count : PriceLadder → ℕ
count l = sum (map (λ (level : Level). length level.1) l.levels)

unfoldable pub last_price : List Level → Option Price
last_price [] = none
last_price ((p, _) ∷ []) = some p
last_price (_ ∷ level ∷ rest) = last_price (level ∷ rest)

unfoldable pub next_trigger : PriceLadder → Option Price
unfolding last_price
next_trigger l = last_price l.levels

-- `entry(price).or_default()` followed by an update of the level
unfoldable pub update_level : Price → (List RestingBid → List RestingBid) → List Level → List Level
update_level p f [] = (p, f []) ∷ []
update_level p f ((q, bids) ∷ rest) =
    if eq_ℤ q p
    then (p, f bids) ∷ rest
    else if ltb_ℤ p q
    then (p, f []) ∷ (q, bids) ∷ rest
    else (q, bids) ∷ update_level p f rest

unfoldable pub push_back : RestingBid → List RestingBid → List RestingBid
push_back bid bids = bids ++ bid ∷ []

unfoldable pub push_front : RestingBid → List RestingBid → List RestingBid
push_front bid bids = bid ∷ bids

unfoldable pub insert_bid : PriceLadder → RestingBid → PriceLadder
unfolding saturating_add_qty update_level push_back
insert_bid l bid = record {
  levels = update_level bid.limit (push_back bid) l.levels;
  total_qty = saturating_add_qty l.total_qty bid.qty;
}

unfoldable pub requeue : PriceLadder → RestingBid → PriceLadder
unfolding saturating_add_qty update_level push_front is_zero
requeue l bid = if is_zero bid.qty then l else record {
  levels = update_level bid.limit (push_front bid) l.levels;
  total_qty = saturating_add_qty l.total_qty bid.qty;
}

-- `split_off(&price)`: what stays, the levels below `price`
unfoldable pub levels_below : Price → List Level → List Level
levels_below p [] = []
levels_below p ((q, bids) ∷ rest) = if ltb_ℤ q p then (q, bids) ∷ levels_below p rest else []

-- `split_off(&price)`: what it returns, the levels at or above `price`
unfoldable pub levels_from : Price → List Level → List Level
levels_from p [] = []
levels_from p ((q, bids) ∷ rest) =
    let later = levels_from p rest in if ltb_ℤ q p then later else (q, bids) ∷ rest

-- the bids of the levels, highest price first and a level in arrival order
unfoldable pub highest_first : List Level → List RestingBid
highest_first [] = []
highest_first ((_, bids) ∷ rest) = highest_first rest ++ bids

-- the inner loop of `drain_triggered`, on `total_qty`
unfoldable pub subtract_all : List RestingBid → Qty → Qty
unfolding saturating_sub_qty
subtract_all [] total = total
subtract_all (bid ∷ bids) total = subtract_all bids (saturating_sub_qty total bid.qty)

unfoldable pub drain_triggered : PriceLadder → Price → List RestingBid × PriceLadder
unfolding levels_from levels_below highest_first subtract_all
drain_triggered l price =
    let out = highest_first (levels_from price l.levels) in
    (out, record { levels = levels_below price l.levels; total_qty = subtract_all out l.total_qty })

unfoldable pub drain_all : PriceLadder → List RestingBid × PriceLadder
unfolding highest_first
drain_all l = (highest_first l.levels, record { levels = []; total_qty = 0 })

-- `b.key == key && b.participant == participant`
unfoldable pub is_bid_of : ParticipantId → IdempotencyKey → RestingBid → Bool
is_bid_of participant key b = b.key == key && b.participant == participant

-- `level.iter().position(..)` and `level.remove(pos)`
unfoldable pub take_from_level :
    ParticipantId → IdempotencyKey → List RestingBid → Option (RestingBid × List RestingBid)
unfolding is_bid_of
take_from_level participant key [] = none
take_from_level participant key (b ∷ bids) =
    if is_bid_of participant key b
    then some (b, bids)
    else elim (take_from_level participant key bids) [
      | none ↦ none
      | some (found, rest) ↦ some (found, b ∷ rest)
    ]

-- the loop over `levels.values_mut()`, which stops at the first level that has the bid
unfoldable pub take_from_levels :
    ParticipantId → IdempotencyKey → List Level → Option (RestingBid × List Level)
unfolding take_from_level
take_from_levels participant key [] = none
take_from_levels participant key ((p, bids) ∷ rest) = elim (take_from_level participant key bids) [
  | some (found, bids') ↦ some (found, (p, bids') ∷ rest)
  | none ↦ elim (take_from_levels participant key rest) [
    | none ↦ none
    | some (found, rest') ↦ some (found, (p, bids) ∷ rest')
  ]
]

-- `levels.retain(|_, level| !level.is_empty())`
unfoldable pub prune : List Level → List Level
prune [] = []
prune ((p, []) ∷ rest) = prune rest
prune ((p, b ∷ bids) ∷ rest) = (p, b ∷ bids) ∷ prune rest

unfoldable pub remove :
    PriceLadder → ParticipantId → IdempotencyKey → Option RestingBid × PriceLadder
unfolding take_from_levels prune saturating_sub_qty
remove l participant key = elim (take_from_levels participant key l.levels) [
  | none ↦ (none, l)
  | some (found, levels) ↦ (
    some found,
    record { levels = prune levels; total_qty = saturating_sub_qty l.total_qty found.qty },
  )
]
