-- ===== src/Wal/Log.antt =====
-- crates/auction-wal/src/wal.rs and error.rs: the log itself. A segment is its index and the bytes
-- handed to it, those that `BufWriter` still holds included; what the file system answers to a call
-- is an argument. `active_path` is what `segment_path` makes of the index, and `scratch` is a local.
pub mod Written
pub mod Reads
pub mod Durable
pub mod Crash
use dutch_auction.Base.{
  ℕ, ◌+◌, ◌-◌, ◌*◌, ◌%◌, ◌^◌, List, [], ◌∷◌, ◌++◌, Option, none, some, Bool, true, ◌&&◌, not,
  length, ltb, ◌==◌, if◌then◌else◌, take,
}
use dutch_auction.Base.Word.{wrap_u64}
use dutch_auction.Proto.Ids.{Seq, next_seq}
use dutch_auction.Proto.Time.{Nanos}
use dutch_auction.Wal.Record.{LogRecord, Codec, encode_into}

-- `WalError`, without paths and messages.
pub data WalError : Type 0 where
  io : WalError
  encode : WalError
  corrupted : ℕ → WalError
  sequence_gap : Seq → Seq → WalError
  manifest_mismatch : WalError
  no_manifest : WalError
  committer_stopped : WalError

pub record WalOptions : Type 0 where
  pub segment_bytes : ℕ
  pub linger : Nanos
  pub max_batch : ℕ
  pub submit_queue_depth : ℕ

abbrev pub default_options : WalOptions
default_options = record {
  segment_bytes = 64 * 1_024 * 1_024;
  linger = 500_000;
  max_batch = 4_096;
  submit_queue_depth = 16_384;
}

abbrev pub Segment : Type 0
Segment = ℕ × List ℕ

-- `sealed` are the segments before the active one. `handed` counts the bytes of the active one that
-- the `BufWriter` is known to have passed on, and `synced` those that are on the medium: those that
-- have been through `sync_data`, or that were found there at opening. `sealed_synced` has the count of
-- bytes on the medium of each sealed segment, as it was when the log moved on from it.
pub record Wal : Type 0 where
  pub options : WalOptions
  pub sealed : List Segment
  pub sealed_synced : List ℕ
  pub active : List ℕ
  pub handed : ℕ
  pub synced : ℕ
  pub active_index : ℕ
  pub active_bytes : ℕ
  pub appended : Option Seq
  pub durable : Option Seq

-- What the file system answers: to `flush`, to `sync_data`, to the opening of a file, and to
-- `write_all`, where `some n` is an error after n bytes.
pub record Io : Type 0 where
  pub flushed : Bool
  pub stored : Bool
  pub created : Bool
  pub write_cut : Option ℕ

abbrev pub healthy : Io
healthy = record { flushed = true; stored = true; created = true; write_cut = none }

-- How an operation on the log ends; after an error or a panic it is left as it is then.
pub data Step : Type 0 where
  done : Wal → Step
  failed : WalError → Wal → Step
  panicked : Wal → Step

-- `record.seq != prev.next()`, if there is a previous record
pub data Link : Type 0 where
  fits : Link
  gap : Seq → Seq → Link
  overflow : Link

unfoldable pub link : Option Seq → Seq → Link
unfolding next_seq
link none seq = fits
link (some prev) seq = elim (next_seq prev) [
  | none ↦ overflow
  | some next ↦ if seq == next then fits else gap prev seq
]

-- `flush`, when it succeeds: the buffer is passed on
unfoldable pub flush : Wal → Wal
flush w = record w { handed = length w.active }

-- `sync_data`, when it succeeds: what was passed on is on the medium
unfoldable pub sync_data : Wal → Wal
sync_data w = record w { synced = w.handed }

-- the new file of `rotate`; what is behind is sealed as it is on the medium
unfoldable pub next_segment : Io → Wal → Step
next_segment sys w =
    let moved : Wal = record w { active_index = (w.active_index + 1) % 2 ^ 32 } in
    if sys.created
    then done (record moved {
      sealed = w.sealed ++ (w.active_index, w.active) ∷ [];
      sealed_synced = w.sealed_synced ++ w.synced ∷ [];
      active = [];
      handed = 0;
      synced = 0;
      active_bytes = 0;
    })
    else failed WalError.io moved

-- `rotate`
unfoldable pub rotate : Io → Wal → Step
unfolding flush sync_data next_segment
rotate sys w =
    if not sys.flushed
    then failed WalError.io w
    else if not sys.stored
    then failed WalError.io (flush w)
    else next_segment sys (sync_data (flush w))

-- `self.active.write_all`, and what follows it
unfoldable pub write_record : Io → Seq → List ℕ → Wal → Step
unfolding take
write_record sys seq bytes w = elim sys.write_cut [
  | none ↦ done (record w {
    active = w.active ++ bytes;
    active_bytes = wrap_u64 (w.active_bytes + length bytes);
    appended = some seq;
  })
  | some n ↦ failed WalError.io (record w { active = w.active ++ take n bytes })
]

-- whether to roll before writing
unfoldable pub is_full : Wal → List ℕ → Bool
is_full w bytes =
    ltb 0 w.active_bytes && ltb w.options.segment_bytes (wrap_u64 (w.active_bytes + length bytes))

unfoldable pub write_after : Io → Seq → List ℕ → Step → Step
unfolding write_record
write_after sys seq bytes (done w) = write_record sys seq bytes w
write_after sys seq bytes (failed e w) = failed e w
write_after sys seq bytes (panicked w) = panicked w

unfoldable pub roll_and_write : Io → Seq → Wal → List ℕ → Step
unfolding write_after rotate is_full
roll_and_write sys seq w bytes =
    write_after sys seq bytes (if is_full w bytes then rotate sys w else done w)

-- `Wal::append`
unfoldable pub append : Codec → Io → Wal → LogRecord → Step
unfolding link roll_and_write
append c sys w r = elim (link w.appended r.seq) [
  | overflow ↦ panicked w
  | gap prev found ↦ failed (sequence_gap prev found) w
  | fits ↦ elim (encode_into c r []) [
    | none ↦ failed WalError.encode w
    | some bytes ↦ roll_and_write sys r.seq w bytes
  ]
]

-- `Wal::sync`
unfoldable pub sync : Io → Wal → Step
unfolding flush sync_data
sync sys w =
    if not sys.flushed
    then failed WalError.io w
    else if not sys.stored
    then failed WalError.io (flush w)
    else done (record (sync_data (flush w)) { durable = w.appended })
