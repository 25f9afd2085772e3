-- ===== src/Tests/Commits.antt =====
-- crates/auction-wal/src/wal.rs and commit.rs: a fresh log, and a writer on it that is stopped after
-- two ticks.
use dutch_auction.Base.{
  All, ℕ, ◌≡◌, ◌≢◌, ◌⊎◌, refl, arith, List, [], ◌∷◌, ◌++◌, map, none, some, true, false, take,
}
use dutch_auction.Wal.Record.{LogRecord, frame, encode_into, to_le_bytes}
use dutch_auction.Wal.Segment.Torn.{IsWritten}
use dutch_auction.Wal.Log.{WalOptions, Wal, Io, healthy, default_options, done, append}
use dutch_auction.Wal.Directory.{
  Dir, last_seq, read_all, records, opened, open_log, describes, eq_config, resume_active,
}
use dutch_auction.Wal.Log.Reads.{AreSealed}
use dutch_auction.Wal.Log.Durable.{Holds, IsLog, AppendEnds, append-AppendEnds}
use dutch_auction.Wal.Log.Crash.{Lasts, IsLoss, reopened, open_log-Holds}
use dutch_auction.Wal.Commit.{
  submitted, stop, Poll, got, empty, ended, crashed, leb_option, durable_of, wait_for, released,
  waits, Writer, run_writer, spawn,
}
use dutch_auction.Wal.Commit.Runs.{all_given}
use dutch_auction.Wal.Commit.Promises.{HasSeq, StartsAfter, acknowledged_survives}
use dutch_auction.Proto.Ids.{next_seq}
use dutch_auction.Wal.Log.Reads.{IsRun}
use dutch_auction.Wal.Commit.Healthy.{IsWritable}
use dutch_auction.Wal.Commit.Flushed.{IsFlushed, queued, stop_flushes}
use dutch_auction.Wal.Commit.Rising.{mark_never_falls}
use dutch_auction.Wal.Commit.Ends.{stop_ends}
use dutch_auction.Tests.Data.{config}
use dutch_auction.Tests.Logs.{codec, codec-IsFaithful, tick}

-- A second record does not fit into a segment.
abbrev small_options : WalOptions
small_options = record default_options { segment_bytes = 8 }

abbrev pub fresh : Wal
fresh = record {
  options = small_options;
  sealed = [];
  sealed_synced = [];
  active = [];
  handed = 0;
  synced = 0;
  active_index = 0;
  active_bytes = 0;
  appended = none;
  durable = none;
}

pub fresh-IsLog : IsLog codec [] [] fresh
unfolding resume_active last_seq
fresh-IsLog =
    reopened codec small_options [] 0 [] [] [] [] AreSealed.no_segment IsWritten.nothing refl tt

abbrev with_tick : Wal
with_tick = record fresh { active = frame codec (0 ∷ 3 ∷ []); active_bytes = 10; appended = some 0 }

tick_appended : append codec healthy fresh (tick 0 3) ≡ done with_tick
unfolding append encode_into frame to_le_bytes take
tick_appended = refl

append-AppendEnds_example :
    AppendEnds codec [] [] (tick 0 3) (append codec healthy fresh (tick 0 3))
append-AppendEnds_example = append-AppendEnds codec [] [] healthy fresh (tick 0 3) fresh-IsLog

same_config : eq_config config config ≡ true
unfolding eq_config
same_config = refl

with_tick-Holds : Holds codec [] (tick 0 3 ∷ []) with_tick
unfolding append encode_into frame to_le_bytes take
with_tick-Holds = (append-AppendEnds codec [] [] healthy fresh (tick 0 3) fresh-IsLog).0.holds

abbrev tick_left : Dir
tick_left = record {
  manifest = describes config;
  segments = (0, take 7 (frame codec (0 ∷ 3 ∷ []))) ∷ [];
}

-- A part of the record is left.
tick_lost : IsLoss with_tick config tick_left
tick_lost = record {
  left = [];
  index = 0;
  n = 7;
  lasts = Lasts.nothing;
  enough = omega arith;
  named = refl;
  described = refl;
}

open_log-Holds_example :
    (kept lost : List LogRecord) × (w' : Wal) × (tick 0 3 ∷ [] ≡ ([] ++ kept) ++ lost)
    × (read_all codec tick_left.segments ≡ records ([] ++ kept))
    × (open_log codec default_options config tick_left ≡ opened w' (describes config))
    × IsLog codec ([] ++ kept) ([] ++ kept) w'
open_log-Holds_example =
    open_log-Holds codec [] (tick 0 3 ∷ []) with_tick tick_left default_options config config
      codec-IsFaithful with_tick-Holds tick_lost same_config

abbrev pub answers : ℕ → Io
answers n = healthy

abbrev pub two_ticks : List Poll
two_ticks = got (submitted (tick 0 3)) ∷ got (submitted (tick 1 4)) ∷ empty true ∷ []

unfoldable written : Writer
unfolding run_writer spawn
written = run_writer codec answers (spawn fresh) two_ticks

pub tick_durable : wait_for 1 (run_writer codec answers (spawn fresh) two_ticks).mark ≡ released
unfolding wait_for run_writer spawn encode_into frame to_le_bytes take
tick_durable = refl

-- The first record is in a sealed segment, and the second in the active one.
abbrev pub two_left : Dir
two_left = record {
  manifest = describes config;
  segments =
      (0, frame codec (0 ∷ 3 ∷ []))
      ∷ (1, take 10 (run_writer codec answers (spawn fresh) two_ticks).wal.active)
      ∷ [];
}

pub two_lost : IsLoss (run_writer codec answers (spawn fresh) two_ticks).wal config two_left
unfolding run_writer spawn encode_into frame to_le_bytes take
two_lost = record {
  left = (0, frame codec (0 ∷ 3 ∷ [])) ∷ [];
  index = 1;
  n = 10;
  lasts = Lasts.kept 0 (frame codec (0 ∷ 3 ∷ [])) 10 10 (omega arith) Lasts.nothing;
  enough = omega arith;
  named = refl;
  described = refl;
}

acknowledged_survives_example :
    (found lost : List LogRecord) × (w' : Wal) × ([] ++ all_given two_ticks ≡ found ++ lost)
    × (read_all codec two_left.segments ≡ records found)
    × (open_log codec default_options config two_left ≡ opened w' (describes config))
    × IsLog codec found found w'
    × (HasSeq 1 found ⊎ StartsAfter 1 found)
unfolding written
acknowledged_survives_example =
    acknowledged_survives codec answers [] fresh two_ticks 1 two_left default_options config config
      codec-IsFaithful fresh-IsLog tick_durable two_lost same_config

mark_never_falls_example :
    (leb_option (durable_of written.mark) (
        durable_of
          (run_writer codec answers written (got (submitted (tick 7 9)) ∷ empty true ∷ [])).mark)
      ≡ true)
    × (wait_for 1
          (run_writer codec answers written (got (submitted (tick 7 9)) ∷ empty true ∷ [])).mark
        ≡ released)
unfolding written
mark_never_falls_example =
    mark_never_falls codec answers written (got (submitted (tick 7 9)) ∷ empty true ∷ []) 1
      tick_durable

stop_ends_example :
    ((run_writer codec answers
        (spawn fresh)
        (two_ticks ++ got stop ∷ (map got (submitted (tick 2 5) ∷ []) ++ empty false ∷ []))).phase
      ≡ crashed)
    ⊎ (((run_writer codec answers (spawn fresh) (
            two_ticks
            ++ got stop ∷ (map got (submitted (tick 2 5) ∷ []) ++ empty false ∷ []))).phase
          ≡ ended)
        × (wait_for 2
              (run_writer codec answers (spawn fresh) (
                two_ticks
                ++ got stop ∷ (map got (submitted (tick 2 5) ∷ []) ++ empty false ∷ []))).mark
            ≢ waits))
stop_ends_example =
    stop_ends codec answers [] fresh two_ticks (submitted (tick 2 5) ∷ []) false 2 fresh-IsLog

ticks_in_order : IsRun none ([] ++ (all_given two_ticks ++ tick 2 5 ∷ []))
unfolding next_seq
ticks_in_order = (tt, (refl, (refl, tt)))

two_can_be_encoded : All (IsWritable codec) ([] ++ (all_given two_ticks ++ tick 2 5 ∷ []))
unfolding encode_into frame to_le_bytes
two_can_be_encoded = ((_, refl), ((_, refl), ((_, refl), tt)))

stop_flushes_example : IsFlushed codec ([] ++ (all_given two_ticks ++ tick 2 5 ∷ [])) (
    run_writer codec
      (λ _. healthy)
      (spawn fresh)
      (two_ticks ++ got stop ∷ queued (tick 2 5 ∷ []) false))
stop_flushes_example =
    stop_flushes codec [] fresh two_ticks (tick 2 5 ∷ []) false fresh-IsLog (tt, (tt, (tt, tt)))
      ticks_in_order two_can_be_encoded
