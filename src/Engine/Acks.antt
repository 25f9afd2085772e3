-- ===== src/Engine/Acks.antt =====
-- crates/auction-engine/src/engine.rs, `run_acks`. One step takes a pending command, the watermark as
-- `wait_durable` looks at it, and whether the standby confirmed in time.
pub mod Backed
use dutch_auction.Base.{
  ℕ, List, [], ◌∷◌, ◌++◌, Option, none, some, Bool, true, false, not, ◌&&◌, ◌||◌, map,
}
use dutch_auction.Proto.Ids.{Seq}
use dutch_auction.Core.Event.{Event}
use dutch_auction.Wal.Commit.{Mark, released, waits, refused, wait_for}
use dutch_auction.Engine.Run.{EngineOptions, View, Pending, ReplicationMode, async, sync}

-- crates/auction-engine/src/ingress.rs
pub record Ack : Type 0 where
  pub seq : Seq
  pub events : List Event

pub record Sequenced : Type 0 where
  pub seq : Seq
  pub event : Event

-- What the thread has told so far: the view, the events to the subscribers, and the replies, the first
-- first; and whether it has returned.
pub record Acks : Type 0 where
  pub replica_lost : Bool
  pub view : View
  pub broadcast : List Sequenced
  pub replies : List (ℕ × Ack)
  pub returned : Bool

-- the events of one command with its number
unfoldable pub sequenced : Pending → List Sequenced
sequenced p = map (λ event. record { seq = p.seq; event = event }) p.events

-- `Some(replica)` in the mode that waits
unfoldable pub is_gated : Bool → ReplicationMode → Bool
is_gated replicated async = false
is_gated replicated sync = replicated

-- the reply to one command
unfoldable pub reply_to : Pending → List (ℕ × Ack)
reply_to p = elim p.reply [
  | none ↦ []
  | some address ↦ (address, record { seq = p.seq; events = p.events }) ∷ []
]

unfoldable pub shown : Option View → View → View
shown none old = old
shown (some published) old = published

-- what follows the two waits
unfoldable pub tell : Bool → Pending → Acks → Acks
unfolding shown sequenced reply_to
tell lost p t = record {
  replica_lost = lost;
  view = shown p.view t.view;
  broadcast = t.broadcast ++ sequenced p;
  replies = t.replies ++ reply_to p;
  returned = t.returned;
}

-- What one look came to: the command is told, it still waits, or the thread has returned.
pub data Told : Type 0 where
  told : Acks → Told
  still_waiting : Told
  gave_up : Acks → Told

-- one round of `run_acks`
unfoldable pub on_pending : Bool → Mark → Bool → Pending → Acks → Told
unfolding wait_for tell
on_pending gated m confirmed p t = elim (wait_for p.seq m) [
  | released ↦ told (tell (t.replica_lost || (gated && not confirmed)) p t)
  | waits ↦ still_waiting
  | refused reason ↦ gave_up (record t { returned = true })
]

-- A round: the watermark and the standby's answer.
abbrev pub Round : Type 0
Round = Mark × Bool

-- `run_acks`, over the pending commands and the rounds; a command that still waits is looked at again
-- in the next round
unfoldable pub run_acks : Bool → List Pending → List Round → Acks → Acks
unfolding on_pending
run_acks gated pendings [] t = t
run_acks gated [] (round ∷ rounds) t = t
run_acks gated (p ∷ pendings) (round ∷ rounds) t = elim (on_pending gated round.0 round.1 p t) [
  | told t' ↦ run_acks gated pendings rounds t'
  | still_waiting ↦ run_acks gated (p ∷ pendings) rounds t
  | gave_up t' ↦ t'
]

-- `run_acks` as `open_inner` starts it
unfoldable pub ack_thread : Bool → EngineOptions → List Pending → List Round → Acks → Acks
unfolding run_acks is_gated
ack_thread replicated options pendings rounds t =
    run_acks (is_gated replicated options.replication) pendings rounds t
