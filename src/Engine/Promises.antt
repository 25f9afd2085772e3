-- ===== src/Engine/Promises.antt =====
-- The engine, its log and recovery together (crates/auction-engine/src/engine.rs,
-- crates/auction-wal/src/commit.rs, wal.rs and replay.rs): no acknowledged command is lost.
use mathlib.Core.List.{append_assoc}
use dutch_auction.Base.{
  ℕ, ◌≡◌, inl, inr, ◌∙◌, ap, arith, Bool, true, List, [], ◌∷◌, ◌++◌, none, length,
}
use dutch_auction.Proto.Ids.{Seq, start_seq}
use dutch_auction.Core.Schedule.{ScheduleKind, stepped, linear}
use dutch_auction.Core.Config.{AuctionConfig}
use dutch_auction.Wal.Record.{LogRecord, Codec}
use dutch_auction.Wal.Record.Frame.{IsFaithful}
use dutch_auction.Wal.Replay.{Recovered, recovered, recover}
use dutch_auction.Wal.Log.{Wal, Io}
use dutch_auction.Wal.Directory.{Dir, records, read_all, eq_kind, eq_schedule, eq_config}
use dutch_auction.Wal.Log.Durable.{IsLog}
use dutch_auction.Wal.Log.Crash.{IsLoss}
use dutch_auction.Wal.Commit.{wait_for, released, Poll, run_writer, spawn}
use dutch_auction.Wal.Commit.Runs.{all_given}
use dutch_auction.Wal.Commit.Promises.{HasSeq, StartsAfter, acknowledged_survives}
use dutch_auction.Engine.Time.{Clock}
use dutch_auction.Engine.Run.{
  EngineOptions, Submission, Answers, Engine, goes_on, run_engine, start_engine,
}
use dutch_auction.Engine.Run.Resumed.{fresh_auction, StartsAt, log_starts, recover-run_engine}

eq_kind_refl : (k : ScheduleKind) → eq_kind k k ≡ true
unfolding eq_kind
eq_kind_refl (stepped d step) = ground arith
eq_kind_refl (linear rate) = ground arith

eq_config_refl : (a : AuctionConfig) → eq_config a a ≡ true
unfolding eq_config eq_schedule
eq_config_refl a = rw (eq_kind_refl a.schedule.kind) (ground arith)

never_after :
    (target : Seq) (found : List LogRecord) → StartsAt start_seq found → ¬ StartsAfter target found
never_after target [] h k = k
never_after target (r ∷ found) h k = absurd (ground arith)

-- For a codec that reads back what it writes, an engine started on a fresh auction that has gone on
-- through these commands, and the writer thread on the empty log, which has received some of what the
-- engine logged, in order, whatever the file system answered: if a wait for a number has returned
-- with success, and a loss of power leaves of each segment, sealed or active, any part that has the
-- bytes on the medium, under its name, then the records that are read from what is left include one of
-- that number, and recovery from them succeeds, with the state and the next number that the engine had
-- after as many commands.
pub acknowledged_recovers :
    (c : Codec) (sys : ℕ → Io) (config : AuctionConfig) (options : EngineOptions)
    (replicated : Bool) (clock : Clock) (e : Engine) (inputs : List (Submission × Answers))
    (w : Wal) (polls : List Poll) (behind : List LogRecord) (target : Seq) (dir : Dir)
    → IsFaithful c
    → run_engine (start_engine options replicated (fresh_auction config) clock) inputs ≡ goes_on e
    → IsLog c [] [] w
    → e.log_tx ≡ all_given polls ++ behind
    → wait_for target (run_writer c sys (spawn w) polls).mark ≡ released
    → IsLoss (run_writer c sys (spawn w) polls).wal config dir
    → (found : List LogRecord) × (front back : List (Submission × Answers)) × (e1 : Engine)
      × (r : Recovered) × (read_all c dir.segments ≡ records found)
      × HasSeq target found
      × (inputs ≡ front ++ back)
      × (length front ≡ length found)
      × (run_engine (start_engine options replicated (fresh_auction config) clock) front
          ≡ goes_on e1)
      × (recover config found none ≡ recovered r)
      × (r.state ≡ e1.state)
      × (r.next_seq ≡ e1.next_seq)
acknowledged_recovers c sys config options replicated clock e inputs w polls behind target dir v ran
      g logged ack loss =
    let (found, lost, w', split, read, reopened, log, has) =
      acknowledged_survives c sys [] w polls target dir options.wal config config v g ack loss
        (eq_config_refl config) in
    let cut : e.log_tx ≡ found ++ (lost ++ behind) =
      logged ∙ ap (λ l. l ++ behind) split ∙ append_assoc found lost behind in
    let begins : StartsAt start_seq found =
      log_starts config options replicated clock e inputs found (lost ++ behind) ran cut in
    let (front, back, e1, r, parts, long, first, recovering, state, next) =
      recover-run_engine config options replicated clock e inputs found (lost ++ behind) ran cut in
    let there : HasSeq target found = elim has [
      | inl member ↦ member
      | inr after ↦ absurd (never_after target found begins after)
    ] in
    (found, front, back, e1, r, read, there, parts, long, first, recovering, state, next)
