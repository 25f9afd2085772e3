-- ===== src/Wal.antt =====
-- crates/auction-wal: the log on disk.
pub mod Record
pub mod Segment
pub mod Replay
pub mod Log
pub mod Directory
pub mod Commit
pub mod Snapshot
