-- ===== src/Engine/Snapshots.antt =====
-- crates/auction-engine/src/engine.rs, `run_snapshots`: snapshots written off the hot path.
use dutch_auction.Base.{List, [], ◌∷◌, Bool}
use dutch_auction.Proto.Ids.{Seq}
use dutch_auction.Core.State.{AuctionState}
use dutch_auction.Wal.Snapshot.{
  SnapshotCodec, SnapshotFile, Written, wrote, unwritten, write, prune,
}

-- after a write: `prune` to two generations, or nothing
unfoldable pub pruned : Written → List SnapshotFile
unfolding prune
pruned (wrote seq files) = (prune 2 files).0
pruned (unwritten e files) = files

-- `run_snapshots`, over the snapshots that arrive and whether the file system takes each
unfoldable pub run_snapshots :
    SnapshotCodec → List ((Seq × AuctionState) × Bool) → List SnapshotFile → List SnapshotFile
unfolding pruned write
run_snapshots c [] files = files
run_snapshots c ((snapshot, stored) ∷ later) files =
    run_snapshots c later (pruned (write c stored files snapshot.1))
