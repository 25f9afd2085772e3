-- ===== src/Wal/Directory.antt =====
-- crates/auction-wal/src/wal.rs: the directory of a log, read back and opened.
use dutch_auction.Base.{
  ℕ, ◌-◌, List, [], ◌∷◌, ◌++◌, Option, none, some, Bool, true, false, ◌&&◌, not, length, ltb, ◌==◌,
  if◌then◌else◌, take, map,
}
use dutch_auction.Base.Int.{eq_ℤ}
use dutch_auction.Proto.Ids.{Seq}
use dutch_auction.Core.Schedule.{ScheduleKind, stepped, linear, PriceSchedule}
use dutch_auction.Core.Config.{AuctionConfig}
use dutch_auction.Wal.Record.{LogRecord, Codec}
use dutch_auction.Wal.Segment.{contents, corrupt, read_segment}
use dutch_auction.Wal.Log.{
  WalError, WalOptions, Segment, Wal, Link, link, corrupted, sequence_gap, manifest_mismatch, fits,
  gap, overflow,
}

-- What `read_all` returns.
pub data Reading : Type 0 where
  records : List LogRecord → Reading
  unread : WalError → Reading
  read_panic : Reading

-- the loop over the records of a segment, after the last record of `all`
unfoldable pub link_all : Option Seq → List LogRecord → Link
unfolding link
link_all prev [] = fits
link_all prev (r ∷ rs) = elim (link prev r.seq) [
  | fits ↦ link_all (some r.seq) rs
  | gap from found ↦ gap from found
  | overflow ↦ overflow
]

-- `all.last()`, after the records are pushed
unfoldable pub last_seq : Option Seq → List LogRecord → Option Seq
last_seq prev [] = prev
last_seq prev (r ∷ rs) = last_seq (some r.seq) rs

unfoldable pub push_all : List LogRecord → Reading → Reading
push_all rs (records later) = records (rs ++ later)
push_all rs (unread e) = unread e
push_all rs read_panic = read_panic

-- `is_last`
unfoldable pub is_last : List Segment → Bool
is_last [] = true
is_last (_ ∷ _) = false

-- the loop over the segments, with the last sequence number so far
unfoldable pub read_segments : Codec → Option Seq → List Segment → Reading
unfolding link_all last_seq push_all is_last
read_segments c prev [] = records []
read_segments c prev ((i, bytes) ∷ segments) = elim (read_segment c bytes) [
  | corrupt offset ↦ unread (corrupted offset)
  | contents rs trailing ↦
      let rest = read_segments c (last_seq prev rs) segments in
      if ltb 0 trailing && not (is_last segments)
      then unread (corrupted 0)
      else elim (link_all prev rs) [
        | fits ↦ push_all rs rest
        | gap from found ↦ unread (sequence_gap from found)
        | overflow ↦ read_panic
      ]
]

-- `read_all`
unfoldable pub read_all : Codec → List Segment → Reading
unfolding read_segments
read_all c segments = read_segments c none segments

-- `truncate_torn_tail`, on the bytes of the file
unfoldable pub truncate_torn_tail : Codec → List ℕ → Option (List ℕ)
unfolding take
truncate_torn_tail c bytes = elim (read_segment c bytes) [
  | corrupt offset ↦ none
  | contents rs trailing ↦
      if trailing == 0 then some bytes else some (take (length bytes - trailing) bytes)
]

-- The derived comparison of the terms of two auctions.
unfoldable pub eq_kind : ScheduleKind → ScheduleKind → Bool
eq_kind (stepped d step) (stepped d' step') = d == d' && eq_ℤ step step'
eq_kind (stepped d step) (linear rate) = false
eq_kind (linear rate) (stepped d step) = false
eq_kind (linear rate) (linear rate') = eq_ℤ rate rate'

unfoldable pub eq_schedule : PriceSchedule → PriceSchedule → Bool
unfolding eq_kind
eq_schedule s s' =
    eq_ℤ s.start_price s'.start_price && eq_ℤ s.floor_price s'.floor_price && eq_kind s.kind s'.kind

unfoldable pub eq_config : AuctionConfig → AuctionConfig → Bool
unfolding eq_schedule
eq_config a b =
    a.auction_id == b.auction_id
    && a.total_supply == b.total_supply
    && eq_schedule a.schedule b.schedule
    && a.batch_window == b.batch_window
    && a.price_tolerance == b.price_tolerance

-- What `read_manifest` finds.
pub data Manifest : Type 0 where
  absent : Manifest
  unreadable : WalError → Manifest
  describes : AuctionConfig → Manifest

-- the directory of a log
pub record Dir : Type 0 where
  pub manifest : Manifest
  pub segments : List Segment

-- the segments before the last, and the last; an empty directory gives a fresh segment 0
unfoldable pub split_active : List Segment → List Segment × Segment
split_active [] = ([], (0, []))
split_active (last ∷ []) = ([], last)
split_active (first ∷ next ∷ rest) =
    let (sealed, active) = split_active (next ∷ rest) in (first ∷ sealed, active)

-- What `Wal::open` returns: the log, with the directory's manifest after it; or the error.
pub data Opened : Type 0 where
  opened : Wal → Manifest → Opened
  refused : WalError → Opened
  open_panic : Opened

unfoldable pub resume_active : WalOptions → Option Seq → List Segment → ℕ → List ℕ → Wal
resume_active options durable sealed index bytes = record {
  options = options;
  sealed = sealed;
  sealed_synced = map (λ (s : Segment). length s.1) sealed;
  active = bytes;
  handed = length bytes;
  synced = length bytes;
  active_index = index;
  active_bytes = length bytes;
  appended = durable;
  durable = durable;
}

-- the active segment without its torn tail, and the log
unfoldable pub open_active :
    Codec → WalOptions → Manifest → Option Seq → List Segment × Segment → Opened
unfolding truncate_torn_tail resume_active
open_active c options manifest durable (sealed, (index, bytes)) =
    elim (truncate_torn_tail c bytes) [
      | none ↦ refused (corrupted 0)
      | some left ↦ opened (resume_active options durable sealed index left) manifest
    ]

-- what follows the manifest, which is then as given
unfoldable pub open_segments : Codec → WalOptions → Manifest → List Segment → Opened
unfolding read_all split_active open_active last_seq
open_segments c options manifest segments = elim (read_all c segments) [
  | unread e ↦ refused e
  | read_panic ↦ open_panic
  | records rs ↦ open_active c options manifest (last_seq none rs) (split_active segments)
]

-- `Wal::open`
unfoldable pub open_log : Codec → WalOptions → AuctionConfig → Dir → Opened
unfolding open_segments eq_config
open_log c options config dir = elim dir.manifest [
  | absent ↦ open_segments c options (describes config) dir.segments
  | unreadable e ↦ refused e
  | describes existing ↦
      if eq_config existing config
      then open_segments c options (describes existing) dir.segments
      else refused manifest_mismatch
]
