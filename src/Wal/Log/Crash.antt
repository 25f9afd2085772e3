-- ===== src/Wal/Log/Crash.antt =====
-- crates/auction-wal/src/wal.rs: what `open` finds after a loss of power. Of each segment any part may
-- be left that has the bytes which are on the medium.
use mathlib.Core.List.{append_assoc, append-nil}
use dutch_auction.Base.{
  ℕ, zero, suc, ◌+◌, ◌-◌, ◌≤◌, ◌≡◌, refl, sym, ◌∙◌, ap, subst, arith, List, [], ◌∷◌, ◌++◌, none,
  some, true, ◌==◌, length, length-append, take, take-append, take-take, append-empty, take-all,
  if_cases, min,
}
use dutch_auction.Core.Config.{AuctionConfig}
use dutch_auction.Wal.Record.{LogRecord, Codec, incomplete, decode}
use dutch_auction.Wal.Record.Frame.{IsFaithful}
use dutch_auction.Wal.Segment.Torn.{IsWritten}
use dutch_auction.Wal.Log.{Wal, WalOptions, Segment}
use dutch_auction.Wal.Directory.{
  Dir, Manifest, describes, opened, records, last_seq, read_all, split_active, truncate_torn_tail,
  resume_active, open_active, open_segments, open_log, eq_config,
}
use dutch_auction.Wal.Log.Written.{Cut, keep_written, IsWritten-append}
use dutch_auction.Wal.Log.Reads.{AreSealed, IsRun, IsRun-front, read_segments_lem, read_whole}
use dutch_auction.Wal.Log.Durable.{sizes, Holds, IsLog}

-- What is left of segments, each with the count of its bytes on the medium: any part of each that
-- has those bytes.
pub data Lasts : List Segment → List ℕ → List Segment → Type 0 where
  nothing : Lasts [] [] []
  kept :
      {sealed left : List Segment} {counts : List ℕ} (index : ℕ) (bytes : List ℕ) (synced n : ℕ)
      → synced ≤ n
      → Lasts sealed counts left
      → Lasts ((index, bytes) ∷ sealed) (synced ∷ counts) ((index, take n bytes) ∷ left)

-- A loss of power leaves this directory of a log: of each segment, sealed or active, any part that has
-- the bytes on the medium.
pub record IsLoss (w : Wal) (config : AuctionConfig) (dir : Dir) : Type 0 where
  pub left : List Segment
  pub index : ℕ
  pub n : ℕ
  pub lasts : Lasts w.sealed w.sealed_synced left
  pub enough : w.synced ≤ n
  -- an assumption on the file system: `rotate` creates files and nothing syncs the directory, yet
  -- their names are there
  pub named : dir.segments ≡ left ++ (index, take n w.active) ∷ []
  pub described : dir.manifest ≡ describes config

take_enough : (n : ℕ) (bytes : List ℕ) → length bytes ≤ n → take n bytes ≡ bytes
unfolding take
take_enough zero [] h = refl
take_enough zero (b ∷ bytes) h = absurd (omega arith)
take_enough (suc n) [] h = refl
take_enough (suc n) (b ∷ bytes) h = ap (λ l. b ∷ l) (take_enough n bytes (omega arith))

-- Segments that are whole on the medium are all left.
Lasts-whole :
    {sealed left : List Segment} {counts : List ℕ}
    → Lasts sealed counts left
    → counts ≡ sizes sealed
    → left ≡ sealed
Lasts-whole Lasts.nothing e = refl
Lasts-whole (Lasts.kept {sealed} {left} {counts} index bytes synced n h l) e =
    let full : synced ≡ length bytes = cc in
    let rest : counts ≡ sizes sealed = cc in
    rw (take_enough n bytes (omega arith), Lasts-whole l rest) refl

-- What a loss of power leaves of a log: the records `kept`, then a tail that does not decode.
pub record Remains (c : Codec) (firm all : List LogRecord) (w : Wal) (n : ℕ) : Type 0 where
  pub older : List LogRecord
  pub recent : List LogRecord
  pub kept : List LogRecord
  pub lost : List LogRecord
  pub bytes : List ℕ
  pub tail : List ℕ
  pub sealed_holds : AreSealed c w.sealed older
  pub recent_holds : IsWritten c recent bytes
  pub torn : decode c tail ≡ incomplete
  pub left : take n w.active ≡ bytes ++ tail
  pub read : older ++ recent ≡ firm ++ kept
  pub split : all ≡ (firm ++ kept) ++ lost
  pub in_order : IsRun none (firm ++ kept)

take_past :
    (front back : List ℕ) (cut n : ℕ)
    → length front ≤ n
    → (m : ℕ) × (take n (front ++ take cut back) ≡ front ++ take m back)
take_past front back cut n h =
    let k : ℕ = n - length front in
    let e : n ≡ length front + k = omega arith in
    (
      min k cut,
      ap (λ i. take i (front ++ take cut back)) e
          ∙ take-append front (take cut back) k
          ∙ ap (λ l. front ++ l) (take-take k cut back),
    )

pub remains :
    (c : Codec) (firm all : List LogRecord) (w : Wal) (n : ℕ)
    → IsFaithful c
    → Holds c firm all w
    → w.synced ≤ n
    → Remains c firm all w n
remains c firm all w n v h enough =
    let (m, e) = take_past h.hard_bytes h.soft_bytes h.cut n (subst (λ k. k ≤ n) h.stored enough) in
    let k : Cut c h.soft (take m h.soft_bytes) = keep_written c m v h.soft_holds in
    let split : all ≡ (firm ++ (h.extra ++ k.kept)) ++ k.lost =
      h.everything
      ∙ ap (λ l. l ++ h.soft) h.firmly
      ∙ ap (λ l. firm ++ h.extra ++ l) k.split
      ∙ sym (append_assoc (firm ++ h.extra) k.kept k.lost)
      ∙ ap (λ l. l ++ k.lost) (append_assoc firm h.extra k.kept) in
    record {
      older = h.older;
      recent = h.hard ++ k.kept;
      kept = h.extra ++ k.kept;
      lost = k.lost;
      bytes = h.hard_bytes ++ k.bytes;
      tail = k.tail;
      sealed_holds = h.sealed_holds;
      recent_holds = IsWritten-append c h.hard_holds k.whole;
      torn = k.torn;
      left =
          ap (take n) h.in_active
          ∙ e
          ∙ ap (λ l. h.hard_bytes ++ l) k.parts
          ∙ sym (append_assoc h.hard_bytes k.bytes k.tail);
      read =
          sym (append_assoc h.older h.hard k.kept)
          ∙ ap (λ l. l ++ k.kept) h.firmly
          ∙ append_assoc firm h.extra k.kept;
      split = split;
      in_order =
          IsRun-front none (firm ++ (h.extra ++ k.kept)) k.lost
            (subst (IsRun none) split h.in_order);
    }

found_again :
    (c : Codec) (firm all : List LogRecord) (w : Wal) (n index : ℕ) (k : Remains c firm all w n)
    → IsFaithful c
    → read_all c (w.sealed ++ (index, take n w.active) ∷ []) ≡ records (firm ++ k.kept)
unfolding read_all
found_again c firm all w n index k v =
    ap (λ b. read_all c (w.sealed ++ (index, b) ∷ [])) k.left
    ∙ read_segments_lem c none index k.tail v k.sealed_holds k.recent_holds k.torn
        (subst (IsRun none) (sym k.read) k.in_order)
    ∙ ap records k.read

truncated :
    (c : Codec) (recent : List LogRecord) (bytes tail : List ℕ)
    → IsFaithful c
    → IsWritten c recent bytes
    → decode c tail ≡ incomplete
    → truncate_torn_tail c (bytes ++ tail) ≡ some bytes
unfolding truncate_torn_tail
truncated c recent bytes tail v w e =
    rw (read_whole c tail v w e, truncate_torn_tail)
      (if_cases (λ o. o ≡ some bytes) (length tail == 0) _ _
        (λ none_left. ap some (append-empty bytes tail (ground arith)))
        (λ _.
          let e : length (bytes ++ tail) - length tail ≡ length bytes =
            omega (arith, length-append bytes tail) in
          rw e (ap some (take-all bytes tail))))

split_active-append :
    (sealed : List Segment) (index : ℕ) (bytes : List ℕ)
    → split_active (sealed ++ (index, bytes) ∷ []) ≡ (sealed, (index, bytes))
unfolding split_active
split_active-append [] index bytes = refl
split_active-append (s ∷ []) index bytes = refl
split_active-append (s ∷ t ∷ sealed) index bytes =
    ap (λ p. (s ∷ p.0, p.1)) (split_active-append (t ∷ sealed) index bytes)

-- A log as `open` makes it, of whole records.
pub reopened :
    (c : Codec) (options : WalOptions) (sealed : List Segment) (index : ℕ) (bytes : List ℕ)
    (older recent all : List LogRecord)
    → AreSealed c sealed older
    → IsWritten c recent bytes
    → older ++ recent ≡ all
    → IsRun none all
    → IsLog c all all (resume_active options (last_seq none all) sealed index bytes)
unfolding resume_active take
reopened c options sealed index bytes older recent all s w e run = record {
  holds = record {
    older = older;
    hard = recent;
    soft = [];
    extra = [];
    hard_bytes = bytes;
    soft_bytes = [];
    cut = 0;
    sealed_holds = s;
    hard_holds = w;
    soft_holds = IsWritten.nothing;
    in_active = sym (append-nil bytes);
    stored = refl;
    sealed_stored = refl;
    everything = sym e ∙ sym (append-nil (older ++ recent));
    firmly = e ∙ sym (append-nil all);
    in_order = run;
    last_firm = refl;
  };
  whole = sym (append-nil bytes);
  last = refl;
}

open_found :
    (c : Codec) (options : WalOptions) (manifest : Manifest) (sealed : List Segment) (index : ℕ)
    (left bytes : List ℕ) (all : List LogRecord)
    → read_all c (sealed ++ (index, left) ∷ []) ≡ records all
    → truncate_torn_tail c left ≡ some bytes
    → open_segments c options manifest (sealed ++ (index, left) ∷ [])
      ≡ opened (resume_active options (last_seq none all) sealed index bytes) manifest
unfolding open_segments
open_found c options manifest sealed index left bytes all found cut =
    rw (found, open_segments)
      (rw (split_active-append sealed index left) (rw (cut, open_active) refl))

-- For a codec that reads back what it writes: if a log holds the records `all`, of which `firm` count
-- as durable, and a loss of power leaves of each segment, sealed or active, any part that has the bytes
-- on the medium, under its name, then opening what is left, for the same auction, succeeds with a whole
-- log again; what it reads are the durable records and perhaps some of those that followed them, in
-- order, and no others.
pub open_log-Holds :
    (c : Codec) (firm all : List LogRecord) (w : Wal) (dir : Dir) (options : WalOptions)
    (existing config : AuctionConfig)
    → IsFaithful c
    → Holds c firm all w
    → IsLoss w existing dir
    → eq_config existing config ≡ true
    → (kept lost : List LogRecord) × (w' : Wal) × (all ≡ (firm ++ kept) ++ lost)
      × (read_all c dir.segments ≡ records (firm ++ kept))
      × (open_log c options config dir ≡ opened w' (describes existing))
      × IsLog c (firm ++ kept) (firm ++ kept) w'
unfolding open_log
open_log-Holds c firm all w dir options existing config v h loss same =
    let k = remains c firm all w loss.n v h loss.enough in
    let segments : dir.segments ≡ w.sealed ++ (loss.index, take loss.n w.active) ∷ [] =
      loss.named
      ∙ ap (λ l. l ++ (loss.index, take loss.n w.active) ∷ [])
          (Lasts-whole loss.lasts h.sealed_stored) in
    let found = found_again c firm all w loss.n loss.index k v in
    let cut : truncate_torn_tail c (take loss.n w.active) ≡ some k.bytes =
      ap (truncate_torn_tail c) k.left
      ∙ truncated c k.recent k.bytes k.tail v k.recent_holds k.torn in
    (
      k.kept,
      k.lost,
      resume_active options (last_seq none (firm ++ k.kept)) w.sealed loss.index k.bytes,
      k.split,
      ap (read_all c) segments ∙ found,
      rw (loss.described, segments, same, open_log)
          (open_found c options (describes existing) w.sealed loss.index (take loss.n w.active)
            k.bytes (firm ++ k.kept) found cut),
      reopened c options w.sealed loss.index k.bytes k.older k.recent (firm ++ k.kept)
          k.sealed_holds k.recent_holds k.read k.in_order,
    )
