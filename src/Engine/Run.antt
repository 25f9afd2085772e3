-- ===== src/Engine/Run.antt =====
-- crates/auction-engine/src/engine.rs: the engine thread. A turn of `run` takes the command it applies
-- (a submission, or its own tick) and what the outside answers then; what it sends goes to the ends of
-- the channels in the engine's record.
pub mod Logged
pub mod Resumed
use dutch_auction.Base.Int.{ℤ}
use dutch_auction.Base.{
  ℕ, ◌+◌, ◌-◌, List, [], ◌∷◌, ◌++◌, Option, none, some, Bool, true, false, not, ◌&&◌, ◌||◌, leb,
  if◌then◌else◌,
}
use dutch_auction.Base.Word.{saturating_mul_u64}
use dutch_auction.Proto.Ids.{Seq, start_seq, next_seq}
use dutch_auction.Proto.Money.{Price, Qty}
use dutch_auction.Proto.Time.{Nanos}
use dutch_auction.Proto.Status.{Status, is_terminal, is_pending}
use dutch_auction.Core.Command.{Command}
use dutch_auction.Core.Config.{AuctionConfig}
use dutch_auction.Core.Event.{Event}
use dutch_auction.Core.State.{AuctionState, Out, current_price, new_state}
use dutch_auction.Core.Apply.{apply}
use dutch_auction.Wal.Record.{LogRecord}
use dutch_auction.Wal.Log.{WalError, manifest_mismatch, WalOptions, default_options}
use dutch_auction.Wal.Directory.{eq_config}
use dutch_auction.Wal.Replay.{Recovered, Recovery, recovered}
use dutch_auction.Engine.Time.{Clock, resume_clock, clock_now}

-- crates/auction-engine/src/replication.rs
pub data ReplicationMode : Type 0 where
  async : ReplicationMode
  sync : ReplicationMode

pub record EngineOptions : Type 0 where
  pub queue_depth : ℕ
  pub wal : WalOptions
  pub snapshot_every : ℕ
  pub spin_ahead : Nanos
  pub replication : ReplicationMode
  pub replica_timeout : Nanos

abbrev pub default_engine_options : EngineOptions
default_engine_options = record {
  queue_depth = 16_384;
  wal = default_options;
  snapshot_every = 50_000;
  spin_ahead = 250_000;
  replication = ReplicationMode.async;
  replica_timeout = 2_000_000_000;
}

-- `View`
pub record View : Type 0 where
  pub status : Status
  pub supply_remaining : Qty
  pub price : Price
  pub clearing_price : Option Price
  pub elapsed : Nanos
  pub seq : Option Seq

-- `View::of`
unfoldable pub view_of : AuctionState → View
unfolding current_price
view_of s = record {
  status = s.status;
  supply_remaining = s.supply_remaining;
  price = current_price s;
  clearing_price = s.clearing_price;
  elapsed = s.now;
  seq = s.last_seq;
}

-- `Submission`; the return address is a number that tells the callers apart
pub record Submission : Type 0 where
  pub cmd : Command
  pub reply : Option ℕ

-- `Pending`
pub record Pending : Type 0 where
  pub seq : Seq
  pub events : List Event
  pub reply : Option ℕ
  pub view : Option View

-- `Engine`, with what was sent on each of its channels, the first message first
pub record Engine : Type 0 where
  pub state : AuctionState
  pub next_seq : Seq
  pub clock : Clock
  pub options : EngineOptions
  pub replicated : Bool
  pub replica_tx : List LogRecord
  pub log_tx : List LogRecord
  pub ack_tx : List Pending
  pub snap_tx : List (Seq × AuctionState)
  pub last_snapshot : Seq
  pub snapshotted_terminal : Bool

-- What the outside answers in one turn: the instants at which the clock is resumed and read, what the
-- subtraction of a duration from an instant gives (`none` is its panic), whether
-- the commit thread and the ack thread are there, whether the ingress queue is empty, and whether the
-- snapshot queue has room, each time that it is asked.
pub record Answers : Type 0 where
  pub resumed_at : ℕ
  pub minus : ℕ → ℕ → Option ℤ
  pub read_at : ℕ
  pub committing : Bool
  pub acking : Bool
  pub quiet : Bool
  pub room : Bool
  pub terminal_room : Bool

-- How a turn ends: with another, or with the thread.
pub data Turn : Type 0 where
  goes_on : Engine → Turn
  stopped : Engine → Turn
  engine_panic : Turn

-- `maybe_snapshot`
unfoldable pub maybe_snapshot : Bool → Bool → Seq → Engine → Engine
unfolding saturating_mul_u64
maybe_snapshot quiet room seq e =
    let since = seq - e.last_snapshot in
    let every = e.options.snapshot_every in
    if leb every since && quiet || leb (saturating_mul_u64 every 4) since
    then (if room
        then record e { snap_tx = e.snap_tx ++ (seq, e.state) ∷ []; last_snapshot = seq }
        else e)
    else e

-- the once-only snapshot of the settled auction
unfoldable pub snapshot_terminal : Bool → Seq → Engine → Engine
unfolding is_terminal
snapshot_terminal room seq e =
    if is_terminal e.state.status && not e.snapshotted_terminal && room
    then record e {
      snap_tx = e.snap_tx ++ (seq, e.state) ∷ [];
      last_snapshot = seq;
      snapshotted_terminal = true;
    }
    else e

-- `Command::Open` on a pending auction restarts the clock
unfoldable pub restarts_clock : Command → AuctionState → Bool
unfolding is_pending
restarts_clock Command.opening s = is_pending s.status
restarts_clock (Command.set_collateral participant limit) s = false
restarts_clock (Command.submit_bid participant key qty kind) s = false
restarts_clock (Command.cancel_resting participant key) s = false
restarts_clock Command.tick s = false
restarts_clock Command.cancel s = false

-- both of them, as `run` has them
unfoldable pub offer_snapshots : Answers → Seq → Engine → Engine
unfolding maybe_snapshot snapshot_terminal
offer_snapshots a seq e =
    snapshot_terminal a.terminal_room seq (maybe_snapshot a.quiet a.room seq e)

unfoldable pub view_after : Out → Option View
unfolding view_of
view_after o = elim o.events [ [] ↦ none | _ ∷ _ ↦ some (view_of o.state) ]

-- what follows `apply`, on the engine with its state, number and clock
unfoldable pub after_apply : Submission → Answers → LogRecord → Out → Engine → Turn
unfolding view_after offer_snapshots
after_apply sub a r o e =
    let sent : Engine = record e {
      replica_tx = if e.replicated then e.replica_tx ++ r ∷ [] else e.replica_tx;
    } in
    let logged : Engine = record sent { log_tx = e.log_tx ++ r ∷ [] } in
    let pending : Pending = record {
      seq = r.seq;
      events = o.events;
      reply = sub.reply;
      view = view_after o;
    } in
    if a.committing
    then (if a.acking
        then goes_on (offer_snapshots a r.seq (record logged { ack_tx = e.ack_tx ++ pending ∷ [] }))
        else stopped logged)
    else stopped sent

-- the clock, the stamp and `apply`, with the next number
unfoldable pub stamp_and_apply : Submission → Answers → Seq → Clock → Engine → Turn
unfolding clock_now apply after_apply
stamp_and_apply sub a next clock e =
    let ts = clock_now clock a.read_at in
    elim (apply e.state e.next_seq ts sub.cmd) [
      | none ↦ engine_panic
      | some o ↦
          after_apply sub a (record { seq = e.next_seq; ts = ts; cmd = sub.cmd }) o
            (record e { state = o.state; next_seq = next; clock = clock })
    ]

-- the clock that stamps the command; `none` is the panic in `Clock::resume`
unfoldable pub next_clock : Submission → Answers → Engine → Option Clock
unfolding restarts_clock resume_clock
next_clock sub a e =
    if restarts_clock sub.cmd e.state
    then resume_clock a.minus e.state.now a.resumed_at
    else some e.clock

-- one turn of `run`
unfoldable pub turn : Engine → Submission → Answers → Turn
unfolding next_seq stamp_and_apply next_clock
turn e sub a = elim (next_seq e.next_seq) [
  | none ↦ engine_panic
  | some next ↦ elim (next_clock sub a e) [
    | none ↦ engine_panic
    | some clock ↦ stamp_and_apply sub a next clock e
  ]
]

-- `run`, over the commands that `next` gives
unfoldable pub run_engine : Engine → List (Submission × Answers) → Turn
unfolding turn
run_engine e [] = goes_on e
run_engine e (input ∷ inputs) = elim (turn e input.0 input.1) [
  | goes_on e' ↦ run_engine e' inputs
  | stopped e' ↦ stopped e'
  | engine_panic ↦ engine_panic
]

-- `open_inner`, on what recovery gave and the resumed clock
unfoldable pub start_engine : EngineOptions → Bool → Recovered → Clock → Engine
start_engine options replicated r clock = record {
  state = r.state;
  next_seq = r.next_seq;
  clock = clock;
  options = options;
  replicated = replicated;
  replica_tx = [];
  log_tx = [];
  ack_tx = [];
  snap_tx = [];
  last_snapshot = r.next_seq;
  snapshotted_terminal = false;
}

-- What `open_inner` starts with, or its error; `none` is a directory without a manifest.
pub data Start : Type 0 where
  started : Engine → Start
  unstarted : WalError → Start
  start_panic : Start

-- the clock of `open_inner`, and the engine on it
unfoldable pub resume_engine : (ℕ → ℕ → Option ℤ) → EngineOptions → Bool → Recovered → ℕ → Start
unfolding resume_clock start_engine
resume_engine minus options replicated r at = elim (resume_clock minus r.state.now at) [
  | none ↦ start_panic
  | some clock ↦ started (start_engine options replicated r clock)
]

unfoldable pub open_engine :
    (ℕ → ℕ → Option ℤ) → EngineOptions → Bool → AuctionConfig → ℕ → Option Recovery → Start
unfolding resume_engine new_state eq_config
open_engine minus options replicated config at none =
    resume_engine minus options replicated
      (record {
        state = new_state config;
        next_seq = start_seq;
        replayed = 0;
        from_snapshot = none;
      })
      at
open_engine minus options replicated config at (some (recovered r)) =
    if eq_config r.state.config config
    then resume_engine minus options replicated r at
    else unstarted manifest_mismatch
open_engine minus options replicated config at (some (Recovery.sequence_gap prev found)) =
    unstarted (WalError.sequence_gap prev found)
open_engine minus options replicated config at (some Recovery.panicked) = start_panic
