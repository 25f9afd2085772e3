-- ===== src/Engine/Standby.antt =====
-- crates/auction-engine/src/replication.rs: the standby. What its channel gives to each receive is an
-- argument, with whether it was told to stop.
pub mod Follows
use dutch_auction.Base.{List, [], ◌∷◌, Option, none, some, Bool, false, leb, if◌then◌else◌}
use dutch_auction.Proto.Ids.{Seq}
use dutch_auction.Core.State.{AuctionState}
use dutch_auction.Wal.Record.{LogRecord}
use dutch_auction.Wal.Replay.{follow}

-- `Watermark::publish`
unfoldable pub confirm : Seq → Option Seq → Option Seq
confirm seq none = some seq
confirm seq (some confirmed) = if leb seq confirmed then some confirmed else some seq

-- One round of `Watermark::wait_for`, on the mark at its start: confirmed, waiting, or lost when the
-- wait in that round timed out.
pub data Confirmation : Type 0 where
  confirmed : Confirmation
  awaited : Confirmation
  lost : Seq → Confirmation

unfoldable pub has_reached : Option Seq → Seq → Bool
has_reached none target = false
has_reached (some seq) target = leb target seq

unfoldable pub wait_confirmed : Seq → Bool → Option Seq → Confirmation
unfolding has_reached
wait_confirmed target timed_out mark =
    if has_reached mark target then confirmed else if timed_out then lost target else awaited

-- What `recv_timeout` gives: a record, nothing in time (with whether a stop was asked for), or no
-- sender left.
pub data Receive : Type 0 where
  received : LogRecord → Receive
  timed_out : Bool → Receive
  gone : Receive

-- `LocalReplica`: the state, the watermark, and whether the thread still follows.
pub data Mood : Type 0 where
  following : Mood
  stopped : Mood
  crashed : Mood

pub record Standby : Type 0 where
  pub state : AuctionState
  pub mark : Option Seq
  pub mood : Mood

-- `LocalReplica::start`
unfoldable pub start_standby : AuctionState → Standby
start_standby s = record { state = s; mark = none; mood = following }

-- a record: applied, then confirmed; `apply` may panic
unfoldable pub on_record : LogRecord → Standby → Standby
unfolding follow confirm
on_record r t = elim (follow t.state r) [
  | none ↦ record t { mood = crashed }
  | some s ↦ record t { state = s; mark = confirm r.seq t.mark }
]

-- one round of `follow`
unfoldable pub on_receive : Receive → Standby → Standby
unfolding on_record
on_receive (received r) t = on_record r t
on_receive (timed_out stopping) t = if stopping then record t { mood = stopped } else t
on_receive gone t = record t { mood = stopped }

-- `follow`, over what its receives give
unfoldable pub follow_all : Standby → List Receive → Standby
unfolding on_receive
follow_all t [] = t
follow_all t (receive ∷ rest) = elim t.mood [
  | following ↦ follow_all (on_receive receive t) rest
  | stopped ↦ t
  | crashed ↦ t
]
