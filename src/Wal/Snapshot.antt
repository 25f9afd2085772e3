-- ===== src/Wal/Snapshot.antt =====
-- crates/auction-wal/src/snapshot.rs, on the files that are in the directory, each with the number in
-- its name. bincode and crc32fast are parameters; a partial file is not listed, so it is left out.
pub mod Newest
use dutch_auction.Base.{
  ℕ, ◌+◌, ◌-◌, List, [], ◌∷◌, ◌++◌, Option, none, some, Bool, length, ltb, ◌==◌, if◌then◌else◌,
  take, drop,
}
use dutch_auction.Proto.Ids.{Seq}
use dutch_auction.Core.State.{AuctionState}
use dutch_auction.Wal.Record.{to_le_bytes, from_le_bytes}
use dutch_auction.Wal.Log.{WalError}
use dutch_auction.Wal.Replay.{Snapshot}

pub record SnapshotCodec : Type 0 where
  -- `bincode::serialize`
  pub serialize : Snapshot → Option (List ℕ)
  -- `bincode::deserialize`
  pub deserialize : List ℕ → Option Snapshot
  -- `crc32fast::hash`
  pub hash : List ℕ → ℕ

abbrev pub SnapshotFile : Type 0
SnapshotFile = Seq × List ℕ

-- What `write` returns, with the files after it.
pub data Written : Type 0 where
  wrote : Option Seq → List SnapshotFile → Written
  unwritten : WalError → List SnapshotFile → Written

-- `rename`: a file of that name is replaced
unfoldable pub put_file : Seq → List ℕ → List SnapshotFile → List SnapshotFile
put_file seq bytes [] = (seq, bytes) ∷ []
put_file seq bytes ((other, old) ∷ files) =
    if other == seq then (seq, bytes) ∷ files else (other, old) ∷ put_file seq bytes files

-- the body with its checksum
unfoldable pub seal : SnapshotCodec → List ℕ → List ℕ
unfolding to_le_bytes
seal c body = body ++ to_le_bytes (c.hash body)

-- `write`, by whether the file system does all it is asked
unfoldable pub write : SnapshotCodec → Bool → List SnapshotFile → AuctionState → Written
unfolding put_file seal
write c stored files state = elim state.last_seq [
  | none ↦ wrote none files
  | some seq ↦ elim (c.serialize (record { seq = seq; state = state })) [
    | none ↦ unwritten WalError.encode files
    | some body ↦
        if stored
        then wrote (some seq) (put_file seq (seal c body) files)
        else unwritten WalError.io files
  ]
]

-- `read`, `none` for an error
unfoldable pub read : SnapshotCodec → List ℕ → Option Snapshot
unfolding take drop from_le_bytes
read c bytes =
    let split = length bytes - 4 in
    let body = take split bytes in
    if ltb (length bytes) 4
    then none
    else if c.hash body == from_le_bytes (drop split bytes)
    then c.deserialize body
    else none

unfoldable pub place_file : SnapshotFile → List SnapshotFile → List SnapshotFile
place_file f [] = f ∷ []
place_file f (g ∷ files) = if ltb g.0 f.0 then f ∷ g ∷ files else g ∷ place_file f files

-- `list`
unfoldable pub newest_first : List SnapshotFile → List SnapshotFile
unfolding place_file
newest_first [] = []
newest_first (f ∷ files) = place_file f (newest_first files)

-- the loop of `latest_usable`
unfoldable pub first_usable : SnapshotCodec → List SnapshotFile → Option Snapshot
unfolding read
first_usable c [] = none
first_usable c (f ∷ files) = elim (read c f.1) [
  | some snapshot ↦ some snapshot
  | none ↦ first_usable c files
]

unfoldable pub latest_usable : SnapshotCodec → List SnapshotFile → Option Snapshot
unfolding first_usable newest_first
latest_usable c files = first_usable c (newest_first files)

-- `prune`: the files that stay, and how many are removed
unfoldable pub prune : ℕ → List SnapshotFile → List SnapshotFile × ℕ
unfolding newest_first take drop
prune keep files = (take keep (newest_first files), length (drop keep (newest_first files)))
