-- ===== src/Wal/Replay.antt =====
-- crates/auction-wal/src/replay.rs: recovery, on what was read from the directory.
pub mod Steps
pub mod Snapshots
use dutch_auction.Base.{
  ℕ, zero, suc, List, [], ◌∷◌, Option, none, some, Bool, true, false, ltb, leb, ◌==◌, if◌then◌else◌,
}
use dutch_auction.Proto.Ids.{Seq, start_seq, next_seq}
use dutch_auction.Core.Config.{AuctionConfig}
use dutch_auction.Core.State.{AuctionState, Out, new_state}
use dutch_auction.Core.Apply.{apply}
use dutch_auction.Wal.Record.{LogRecord}

-- crates/auction-wal/src/snapshot.rs
pub record Snapshot : Type 0 where
  pub seq : Seq
  pub state : AuctionState

pub record Recovered : Type 0 where
  pub state : AuctionState
  pub next_seq : Seq
  pub replayed : ℕ
  pub from_snapshot : Option Seq

-- The result of `recover`; `panicked` is a panic of `apply` or of `Seq::next`.
pub data Recovery : Type 0 where
  recovered : Recovered → Recovery
  sequence_gap : Seq → Seq → Recovery
  panicked : Recovery

-- What the loop over the records leaves: the state, `last` and `replayed`, or the end of `recover`.
pub data Loop : Type 0 where
  finished : AuctionState → Option Seq → ℕ → Loop
  gap : Seq → Seq → Loop
  panic : Loop

-- `resume_after.is_some_and(|s| record.seq <= s)`
unfoldable pub is_covered : Option Seq → LogRecord → Bool
is_covered none r = false
is_covered (some s) r = leb r.seq s

-- `follow`: the state after one record, `none` for a panic
unfoldable pub follow : AuctionState → LogRecord → Option AuctionState
unfolding apply
follow s r = elim (apply s r.seq r.ts r.cmd) [ none ↦ none | some o ↦ some o.state ]

-- the check on `prev.next()`, and `apply`
unfoldable pub check_and_follow : Option Seq → AuctionState → LogRecord → Loop
unfolding next_seq follow
check_and_follow none s r = elim (follow s r) [
  | none ↦ panic
  | some s' ↦ finished s' (some r.seq) 1
]
check_and_follow (some prev) s r = elim (next_seq prev) [
  | none ↦ panic
  | some expected ↦
      if r.seq == expected
      then elim (follow s r) [ none ↦ panic | some s' ↦ finished s' (some r.seq) 1 ]
      else gap prev r.seq
]

-- `for record in &records`
unfoldable pub replay : Option Seq → Option Seq → ℕ → AuctionState → List LogRecord → Loop
unfolding is_covered check_and_follow
replay resume last n s [] = finished s last n
replay resume last n s (r ∷ rs) = elim (is_covered resume r) [
  | true ↦ replay resume last n s rs
  | false ↦ elim (check_and_follow last s r) [
    | finished s' last' _ ↦ replay resume last' (suc n) s' rs
    | gap from found ↦ gap from found
    | panic ↦ panic
  ]
]

-- `match last`, and the result
unfoldable pub conclude : Option Seq → Loop → Recovery
unfolding next_seq
conclude from (finished s none n) =
    recovered (record { state = s; next_seq = start_seq; replayed = n; from_snapshot = from })
conclude from (finished s (some last) n) = elim (next_seq last) [
  | none ↦ panicked
  | some next ↦
      recovered (record { state = s; next_seq = next; replayed = n; from_snapshot = from })
]
conclude from (gap prev found) = sequence_gap prev found
conclude from panic = panicked

-- `records.last().is_some_and(|r| r.seq < s.seq)`
unfoldable pub is_ahead_of : Snapshot → List LogRecord → Bool
is_ahead_of snap [] = false
is_ahead_of snap (r ∷ []) = ltb r.seq snap.seq
is_ahead_of snap (_ ∷ r ∷ rs) = is_ahead_of snap (r ∷ rs)

-- where to start from: the snapshot, unless it is ahead of the log
unfoldable pub usable : List LogRecord → Option Snapshot → Option Snapshot
unfolding is_ahead_of
usable records none = none
usable records (some snap) = if is_ahead_of snap records then none else some snap

unfoldable pub recover_from : AuctionConfig → List LogRecord → Option Snapshot → Recovery
unfolding conclude replay new_state
recover_from config records none = conclude none (replay none none 0 (new_state config) records)
recover_from config records (some snap) =
    conclude (some snap.seq) (replay (some snap.seq) (some snap.seq) 0 snap.state records)

-- `recover`, on the manifest, the records and the newest usable snapshot
unfoldable pub recover : AuctionConfig → List LogRecord → Option Snapshot → Recovery
unfolding recover_from usable
recover config records snapshot = recover_from config records (usable records snapshot)
