-- ===== src/Tests/Engines.antt =====
-- crates/auction-engine: an engine that opens an auction and takes a bid, its standby, and one that
-- only ticks, with its writer, acknowledgements and snapshots.
use dutch_auction.Base.{
  ℕ, ◌-◌, ◌≤◌, ◌≡◌, refl, arith, List, [], ◌∷◌, ◌++◌, Option, none, some, true, false, length,
  lookup, insert, ltb, if◌then◌else◌,
}
use dutch_auction.Base.Int.{ℤ, pos}
use dutch_auction.Proto.Ids.{Seq}
use dutch_auction.Core.Command.{Command, BidKind}
use dutch_auction.Core.State.{AuctionState, new_state}
use dutch_auction.Core.Apply.{apply}
use dutch_auction.Wal.Record.{LogRecord}
use dutch_auction.Wal.Replay.{Recovered, recovered, recover}
use dutch_auction.Wal.Directory.{records, read_all}
use dutch_auction.Wal.Commit.Runs.{all_given}
use dutch_auction.Wal.Commit.Promises.{HasSeq}
use dutch_auction.Wal.Snapshot.{SnapshotCodec, SnapshotFile, wrote, write, latest_usable, prune}
use dutch_auction.Wal.Snapshot.Newest.{latest_usable-write}
use dutch_auction.Engine.Time.{Clock, clock_now, resume_clock, IsDifference, Resumes, resumed_clock}
use dutch_auction.Engine.Run.{
  Submission, Answers, Engine, Turn, goes_on, stopped, engine_panic, run_engine, start_engine,
  default_engine_options, view_of,
}
use dutch_auction.Engine.Next.{next, nothing_yet}
use dutch_auction.Engine.Run.Logged.{Awaits}
use dutch_auction.Engine.Run.Resumed.{fresh_auction, recover-run_engine}
use dutch_auction.Engine.Next.Waits.{IsTimely, next-IsTimely}
use dutch_auction.Engine.Acks.{Acks}
use dutch_auction.Engine.Standby.{
  Receive, received, timed_out, following, start_standby, follow_all,
}
use dutch_auction.Engine.Standby.Follows.{Carries, follow_all-run_engine}
use dutch_auction.Engine.Clock.{deadline}
use dutch_auction.Engine.Promises.{acknowledged_recovers}
use dutch_auction.Tests.Data.{config}
use dutch_auction.Tests.Logs.{codec, codec-IsFaithful}
use dutch_auction.Tests.Commits.{
  fresh, fresh-IsLog, answers, two_ticks, tick_durable, two_left, two_lost,
}

-- Instants do not go below zero.
abbrev minus : ℕ → ℕ → Option ℤ
minus at elapsed = if ltb at elapsed then none else some (pos (at - elapsed))

minus-IsDifference : IsDifference minus
minus-IsDifference at elapsed origin e = ground arith

abbrev zero_clock : Clock
zero_clock = record { origin = pos 0 }

abbrev turn_at : ℕ → Answers
turn_at at = record {
  resumed_at = 0;
  minus = minus;
  read_at = at;
  committing = true;
  acking = true;
  quiet = true;
  room = true;
  terminal_room = true;
}

abbrev command : Command → ℕ → Submission × Answers
command cmd at = (record { cmd = cmd; reply = some at }, turn_at at)

abbrev session : List (Submission × Answers)
session =
    command Command.opening 0
    ∷ command (Command.set_collateral 7 (pos 20_000)) 1
    ∷ command (Command.submit_bid 7 1 8 (BidKind.take (pos 1_000))) 5
    ∷ []

abbrev engine_of : Turn → Engine → Engine
engine_of (goes_on e) d = e
engine_of (stopped e) d = e
engine_of engine_panic d = d

abbrev beginning : Engine
beginning = start_engine default_engine_options true (fresh_auction config) zero_clock

unfoldable after_session : Engine
unfolding run_engine
after_session = engine_of (run_engine beginning session) beginning

session_ran : run_engine beginning session ≡ goes_on after_session
unfolding after_session run_engine start_engine apply new_state lookup insert
session_ran = refl

abbrev logged : List LogRecord
logged =
    record { seq = 0; ts = 0; cmd = Command.opening }
    ∷ record { seq = 1; ts = 1; cmd = Command.set_collateral 7 (pos 20_000) }
    ∷ []

abbrev logged_later : List LogRecord
logged_later =
    record { seq = 2; ts = 5; cmd = Command.submit_bid 7 1 8 (BidKind.take (pos 1_000)) } ∷ []

session_logged : after_session.log_tx ≡ logged ++ logged_later
unfolding after_session run_engine start_engine apply new_state lookup insert
session_logged = refl

session_sent : after_session.replica_tx ≡ logged ++ logged_later
unfolding after_session run_engine start_engine apply new_state lookup insert
session_sent = refl

session_replicated : after_session.replicated ≡ true
unfolding after_session run_engine start_engine apply new_state lookup insert
session_replicated = refl

recover-run_engine_example :
    (front back : List (Submission × Answers)) × (e1 : Engine) × (r : Recovered) × (session
      ≡ front ++ back)
    × (length front ≡ length logged)
    × (run_engine beginning front ≡ goes_on e1)
    × (recover config logged none ≡ recovered r)
    × (r.state ≡ e1.state)
    × (r.next_seq ≡ e1.next_seq)
recover-run_engine_example =
    recover-run_engine config default_engine_options true zero_clock after_session session logged
      logged_later session_ran session_logged

abbrev stream : List Receive
stream =
    received (record { seq = 0; ts = 0; cmd = Command.opening })
    ∷ timed_out false
    ∷ received (record { seq = 1; ts = 1; cmd = Command.set_collateral 7 (pos 20_000) })
    ∷ []

stream-Carries : Carries stream logged
stream-Carries = Carries.carried _ (Carries.idled (Carries.carried _ Carries.no_more))

follow_all-run_engine_example :
    (front back : List (Submission × Answers)) × (e1 : Engine) × (mark : Option Seq) × (session
      ≡ front ++ back)
    × (length front ≡ length logged)
    × (run_engine beginning front ≡ goes_on e1)
    × (follow_all (start_standby (new_state config)) stream
        ≡ record { state = e1.state; mark = mark; mood = following })
    × Awaits mark e1.next_seq
follow_all-run_engine_example =
    follow_all-run_engine config default_engine_options zero_clock after_session session stream
      logged logged_later session_ran session_replicated session_sent stream-Carries

-- Two ticks of an auction that is not open yet.
abbrev ticking : List (Submission × Answers)
ticking = command Command.tick 3 ∷ command Command.tick 4 ∷ []

abbrev quiet_start : Engine
quiet_start = start_engine default_engine_options false (fresh_auction config) zero_clock

unfoldable after_ticks : Engine
unfolding run_engine
after_ticks = engine_of (run_engine quiet_start ticking) quiet_start

ticks_ran : run_engine quiet_start ticking ≡ goes_on after_ticks
unfolding after_ticks run_engine start_engine apply new_state lookup insert
ticks_ran = refl

ticks_logged : after_ticks.log_tx ≡ all_given two_ticks ++ []
unfolding after_ticks run_engine start_engine apply new_state lookup insert
ticks_logged = refl

acknowledged_recovers_example :
    (found : List LogRecord) × (front back : List (Submission × Answers)) × (e1 : Engine)
    × (r : Recovered) × (read_all codec two_left.segments ≡ records found)
    × HasSeq 1 found
    × (ticking ≡ front ++ back)
    × (length front ≡ length found)
    × (run_engine quiet_start front ≡ goes_on e1)
    × (recover config found none ≡ recovered r)
    × (r.state ≡ e1.state)
    × (r.next_seq ≡ e1.next_seq)
acknowledged_recovers_example =
    acknowledged_recovers codec answers config default_engine_options false zero_clock after_ticks
      ticking fresh two_ticks [] 1 two_left codec-IsFaithful ticks_ran fresh-IsLog ticks_logged
      tick_durable two_lost

next-IsTimely_example :
    IsTimely false
      (deadline after_session.state)
      after_session.options.spin_ahead
      (clock_now after_session.clock 50)
      (next false nothing_yet 50 after_session)
next-IsTimely_example = next-IsTimely false 50 after_session

resumed_clock_example : Resumes minus 70 1_000 1_005 1_009 (resume_clock minus 70 1_000)
resumed_clock_example =
    resumed_clock minus 70 1_000 1_005 1_009 minus-IsDifference (omega arith) (omega arith)
      (omega arith)

abbrev nothing_told_yet : Acks
nothing_told_yet = record {
  replica_lost = false;
  view = view_of (new_state config);
  broadcast = [];
  replies = [];
  returned = false;
}

abbrev settled : AuctionState
settled = record (new_state config) { last_seq = some 9 }

abbrev snapshot_codec : SnapshotCodec
snapshot_codec = record {
  serialize = λ _. some (1 ∷ 2 ∷ []);
  deserialize = λ _. some (record { seq = 9; state = settled });
  hash = λ _. 77;
}

abbrev older : List SnapshotFile
older = (3, 5 ∷ []) ∷ (6, []) ∷ []

latest_usable-write_example :
    (files : List SnapshotFile) × (write snapshot_codec true older settled ≡ wrote (some 9) files)
    × (latest_usable snapshot_codec (prune 2 files).0 ≡ some (record { seq = 9; state = settled }))
    × (length (prune 2 files).0 ≤ 2)
latest_usable-write_example =
    latest_usable-write snapshot_codec older settled 9 (1 ∷ 2 ∷ []) 1 refl refl refl (omega arith)
      (omega arith, (omega arith, tt))
