-- ===== src/Lib.antt =====
-- A verification of the Dutch-auction venue: a descending clock price, bids at the clock or
-- resting below it, batch windows settled at one price, and an auction that clears at a uniform
-- price.
--
-- The program's parts, and where each is modelled:
--   crates/auction-proto (ids.rs, money.rs, time.rs, lib.rs): Proto and its children. A newtype is
--     its contents; a price is an integer that the code keeps in an i64, a quantity, an instant
--     and a sequence number are numbers that it keeps in a u64. Saturation, checks and wrap-around
--     are written out where the source has them (Base/Word).
--   crates/auction-core/src/schedule.rs: Core/Schedule; its bounds and `time_to_reach` in
--     Core/Schedule/Bounds and Core/Schedule/Reach.
--   crates/auction-core/src/{config,command,event}.rs: Core/Config, Core/Command, Core/Event.
--   crates/auction-core/src/ladder.rs: Core/Ladder. The map from limit to queue is a list of
--     levels in ascending order of price.
--   crates/auction-core/src/state.rs: Core/Bid (the small structs), Core/Allocate (`allocate`),
--     Core/State (the state, its accessors, collateral and outcomes), Core/Clear (`clear`),
--     Core/Matching (`flush_window`), Core/Apply (`apply` and its handlers). A handler takes and
--     returns `Out`, the state with the events so far; `apply` is `none` where the source panics
--     on a sequence number that does not follow.
--   crates/auction-wal/src/record.rs, segment.rs, replay.rs: Wal/Record (the frame of a record),
--     Wal/Segment (the records of one file), Wal/Replay (`recover`, on what was read from the
--     directory). bincode and crc32fast are the fields of a record `Codec`, and `IsFaithful` says
--     what the code relies on; Tests/Logs has a codec that is faithful.
--   crates/auction-wal/src/wal.rs and error.rs: Wal/Log and Wal/Directory. The log is a state with
--     the bytes of each segment and the part of the active one that is on the medium; `append`,
--     `sync` and `rotate` take what the file system answers (a record `Io`), `open_log` and
--     `read_all` take the directory.
--   crates/auction-wal/src/commit.rs: Wal/Commit. The watermark, and the writer thread as a state
--     machine whose phases are the places where `run` receives (`on_recv`, `on_try_recv`,
--     `on_try_iter`); `run_writer` runs it over what its receives find.
--   crates/auction-wal/src/snapshot.rs: Wal/Snapshot, on the files with the numbers in their
--     names.
--   crates/auction-engine/src/clock.rs: Engine/Clock (`window_close`, with `deadline` of
--     engine.rs) and Engine/Time (`Clock`).
--   crates/auction-engine/src/engine.rs: Engine/Run (the turns of `run`, `maybe_snapshot`,
--     `open_inner`), Engine/Next (`next`), Engine/Acks (`run_acks`), Engine/Snapshots
--     (`run_snapshots`). A turn takes the command and what the outside answers; what it sends on
--     its channels is kept in the record.
--   crates/auction-engine/src/replication.rs, ingress.rs: Engine/Standby, Engine/Ingress.
-- How they interact: `apply` stamps the state (`begin`), closes a window that has elapsed, and
-- hands the command to its handler; bids and triggered resting bids join the window
-- (`push_pending`), which `flush_window` sorts, allocates level by level, settles and, when
-- nothing is left, clears. The clock price comes from the schedule through the configuration. The
-- engine applies a command, sends it to the standby and to the writer thread, and hands it to the
-- ack thread (`after_apply`); the writer appends and syncs in batches and publishes the watermark;
-- the ack thread waits for the watermark (`wait_for`), and for the standby in the mode that does,
-- before it tells anybody. Recovery applies the logged commands again, from a snapshot or from the
-- start; the deadlines say when the engine applies a tick of its own.
--
-- Proofs: Core/Ladder/Drain, Drained, Order, Removal and Sums on the ladder, Core/Allocate/Shares and
-- Total on one level, Core/Matching/Levels, Priority, Asked and Settle on a window,
-- Core/Clear/Uniform on clearing, Core/Invariant and its children on every reachable state,
-- Core/Outcomes and its children on what is on record for a key (InFlight on the bids without a
-- final answer), Core/Backing and its children on what is committed of the collateral,
-- Wal/Record/Frame, Wal/Segment/Torn, Wal/Replay/Steps and Snapshots on the log, Wal/Log/Written,
-- Reads, Durable and Crash on what a loss of power leaves, Wal/Commit/Kept, Runs, Promises,
-- Rising, Ends, Healthy and Flushed on the writer thread, Wal/Snapshot/Newest on snapshots,
-- Engine/Clock/Deadlines and Engine/Next/Waits on deadlines, Engine/Run/Logged and Resumed on the
-- engine's log, Engine/Acks/Backed on acknowledgements, Engine/Standby/Follows on the standby,
-- Engine/Promises on all of them together.
--
-- Bounds and fuel: the loop over the levels of a window runs on the number of its bids, which
-- `match_levels-Accounts` shows to be enough; the loop over a segment runs on the number of its
-- bytes, which is enough since every record takes at least one (`read_records_lem`). The supply is
-- a u64 where a theorem says so; numbers and integers themselves are unbounded, and arithmetic
-- that the source leaves unchecked wraps as in a release build, where debug assertions are not
-- there. A stable sort is an insertion sort here. The maps that are keyed by a UUID are lists in
-- ascending order of a 128-bit number.
--
-- The threads of the log and the engine run over lists of what they receive, so their runs end
-- with the list. A loss of power is any cut of every segment, sealed or active, that keeps the bytes
-- that `sync_data` has put on the medium (`IsLoss`); what is found there at opening counts as on the
-- medium. Nothing in the source syncs the directory, so that the files of segments keep their names
-- is an assumption on the file system, a field of `IsLoss`. What `Instant - Duration` answers, a
-- panic included, is an argument of the engine.
--
-- Not modelled: Display and serialisation of the types, the minting of random identifiers, the
-- names of files and the listing of directories, the JSON of the manifest, I/O errors at opening a
-- log, the channels, locks and joins of the threads themselves (their answers are arguments), the
-- crash test victim, and the crates auction-gateway, auction-projector and load, which are stubs.
pub mod Base
pub mod Proto
pub mod Core
pub mod Wal
pub mod Engine
mod Tests
