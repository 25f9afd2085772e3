-- ===== src/Wal/Segment.antt =====
-- crates/auction-wal/src/segment.rs, `read_segment`, on the bytes of the file.
pub mod Torn
use dutch_auction.Base.{ℕ, zero, suc, ◌+◌, ◌-◌, List, [], ◌∷◌, length, ltb, if◌then◌else◌, drop}
use dutch_auction.Wal.Record.{LogRecord, Codec, Decoded, decoded, incomplete, malformed, decode}

-- `SegmentContents`, or the error `Corrupt` at an offset.
pub data SegmentRead : Type 0 where
  contents : List LogRecord → ℕ → SegmentRead
  corrupt : ℕ → SegmentRead

-- `records.push(record)`, on what the rest of the loop gives
unfoldable pub push_record : LogRecord → SegmentRead → SegmentRead
push_record r (contents records trailing_bytes) = contents (r ∷ records) trailing_bytes
push_record r (corrupt offset) = corrupt offset

-- the loop, from the offset `at`, with `rest` the bytes from there on; each round takes a byte at
-- least, so the number of bytes is fuel enough
unfoldable pub read_records : Codec → ℕ → ℕ → List ℕ → SegmentRead
unfolding push_record decode
read_records c zero at rest = contents [] (length rest)
read_records c (suc fuel) at [] = contents [] 0
read_records c (suc fuel) at (b ∷ rest) = elim (decode c (b ∷ rest)) [
  | decoded r consumed ↦
      push_record r (read_records c fuel (at + consumed) (drop consumed (b ∷ rest)))
  | incomplete ↦ contents [] (length (b ∷ rest))
  | malformed ↦ corrupt at
]

unfoldable pub read_segment : Codec → List ℕ → SegmentRead
unfolding read_records
read_segment c buf = read_records c (length buf) 0 buf
