-- ===== src/Wal/Log/Durable.antt =====
-- crates/auction-wal/src/wal.rs: what the operations on the log keep, whatever the file system
-- answers.
use mathlib.Core.List.{append_assoc, append-nil}
use dutch_auction.Base.{
  ℕ, ◌+◌, ◌%◌, ◌^◌, ◌≡◌, ◌⊎◌, inl, inr, refl, sym, ◌∙◌, ap, subst, List, [], ◌∷◌, ◌++◌, Option,
  none, some, not, length, take, take-whole, take-append, option_cases, if◌then◌else◌, if_cases,
  map,
}
use dutch_auction.Base.Word.{wrap_u64}
use dutch_auction.Proto.Ids.{Seq, next_seq}
use dutch_auction.Wal.Record.{LogRecord, Codec, encode_into}
use dutch_auction.Wal.Segment.Torn.{IsWritten}
use dutch_auction.Wal.Log.{
  Segment, flush, sync_data, next_segment, Wal, WalError, Io, Step, done, failed, panicked, Link,
  fits, gap, overflow, sequence_gap, link, rotate, write_record, write_after, is_full,
  roll_and_write, append, sync,
}
use dutch_auction.Wal.Directory.{last_seq}
use dutch_auction.Wal.Log.Written.{IsWritten-append, IsWritten-one}
use dutch_auction.Wal.Log.Reads.{
  Follows, IsRun, AreSealed, AreSealed-append, last_seq-append, IsRun-append, Follows-link,
  overflow-link,
}

-- How long each segment is.
abbrev pub sizes : List Segment → List ℕ
sizes = map (λ (s : Segment). length s.1)

-- The log holds the records `all`, the last of them perhaps in part, and the records `firm` at their
-- front are on the medium.
pub record Holds (c : Codec) (firm all : List LogRecord) (w : Wal) : Type 0 where
  pub older : List LogRecord
  pub hard : List LogRecord
  pub soft : List LogRecord
  pub extra : List LogRecord
  pub hard_bytes : List ℕ
  pub soft_bytes : List ℕ
  pub cut : ℕ
  pub sealed_holds : AreSealed c w.sealed older
  pub hard_holds : IsWritten c hard hard_bytes
  pub soft_holds : IsWritten c soft soft_bytes
  pub in_active : w.active ≡ hard_bytes ++ take cut soft_bytes
  pub stored : w.synced ≡ length hard_bytes
  pub sealed_stored : w.sealed_synced ≡ sizes w.sealed
  pub everything : all ≡ older ++ hard ++ soft
  pub firmly : older ++ hard ≡ firm ++ extra
  pub in_order : IsRun none all
  pub last_firm : w.durable ≡ last_seq none firm

-- The log holds whole records, and its last number is that of the last one.
pub record IsLog (c : Codec) (firm all : List LogRecord) (w : Wal) : Type 0 where
  pub holds : Holds c firm all w
  pub whole : w.active ≡ holds.hard_bytes ++ holds.soft_bytes
  pub last : w.appended ≡ last_seq none all

-- What the active segment holds, taken as one.
module _ (c : Codec) (firm all : List LogRecord) (w : Wal) (g : IsLog c firm all w) where
  written_active : IsWritten c (g.holds.hard ++ g.holds.soft) w.active
  written_active =
      subst (IsWritten c (g.holds.hard ++ g.holds.soft)) (sym g.whole)
        (IsWritten-append c g.holds.hard_holds g.holds.soft_holds)

  all_split : all ≡ g.holds.older ++ (g.holds.hard ++ g.holds.soft)
  all_split = g.holds.everything ∙ append_assoc g.holds.older g.holds.hard g.holds.soft

  pub firm_split : all ≡ firm ++ (g.holds.extra ++ g.holds.soft)
  firm_split =
      g.holds.everything
      ∙ ap (λ l. l ++ g.holds.soft) g.holds.firmly
      ∙ append_assoc firm g.holds.extra g.holds.soft

sizes-append : (front back : List Segment) → sizes (front ++ back) ≡ sizes front ++ sizes back
sizes-append [] back = refl
sizes-append (s ∷ front) back = ap (λ l. length s.1 ∷ l) (sizes-append front back)

-- The buffer is passed on, and nothing more is on the medium.
passed_on :
    (c : Codec) (firm all : List LogRecord) (w : Wal)
    → IsLog c firm all w
    → IsLog c firm all (record w { handed = length w.active })
passed_on c firm all w g =
    let h = g.holds in
    record {
      holds = record {
        older = h.older;
        hard = h.hard;
        soft = h.soft;
        extra = h.extra;
        hard_bytes = h.hard_bytes;
        soft_bytes = h.soft_bytes;
        cut = h.cut;
        sealed_holds = h.sealed_holds;
        hard_holds = h.hard_holds;
        soft_holds = h.soft_holds;
        in_active = h.in_active;
        stored = h.stored;
        sealed_stored = h.sealed_stored;
        everything = h.everything;
        firmly = h.firmly;
        in_order = h.in_order;
        last_firm = h.last_firm;
      };
      whole = g.whole;
      last = g.last;
    }

-- Everything in the active segment is on the medium now.
harden :
    (c : Codec) (firm later all more : List LogRecord) (w : Wal) (index : ℕ) (durable : Option Seq)
    → IsLog c firm all w
    → all ≡ later ++ more
    → durable ≡ last_seq none later
    → IsLog c later all (record w {
      handed = length w.active;
      synced = length w.active;
      active_index = index;
      durable = durable;
    })
unfolding take
harden c firm later all more w index durable g front last =
    let h = g.holds in
    let split = all_split c firm all w g in
    record {
      holds = record {
        older = h.older;
        hard = h.hard ++ h.soft;
        soft = [];
        extra = more;
        hard_bytes = w.active;
        soft_bytes = [];
        cut = 0;
        sealed_holds = h.sealed_holds;
        hard_holds = written_active c firm all w g;
        soft_holds = IsWritten.nothing;
        in_active = sym (append-nil w.active);
        stored = refl;
        sealed_stored = h.sealed_stored;
        everything = split ∙ sym (append-nil (h.older ++ (h.hard ++ h.soft)));
        firmly = sym split ∙ front;
        in_order = h.in_order;
        last_firm = last;
      };
      whole = sym (append-nil w.active);
      last = g.last;
    }

-- A segment is sealed, and an empty one follows.
rolled :
    (c : Codec) (firm all : List LogRecord) (w : Wal) (index : ℕ)
    → IsLog c firm all w
    → IsLog c firm all (record w {
      sealed = w.sealed ++ (w.active_index, w.active) ∷ [];
      sealed_synced = w.sealed_synced ++ length w.active ∷ [];
      active = [];
      handed = 0;
      synced = 0;
      active_index = index;
      active_bytes = 0;
    })
unfolding take
rolled c firm all w index g =
    let h = g.holds in
    let split = all_split c firm all w g in
    let old : List LogRecord = h.older ++ (h.hard ++ h.soft) in
    record {
      holds = record {
        older = old;
        hard = [];
        soft = [];
        extra = h.extra ++ h.soft;
        hard_bytes = [];
        soft_bytes = [];
        cut = 0;
        sealed_holds =
            AreSealed-append c w.active_index w.active h.sealed_holds
              (written_active c firm all w g);
        hard_holds = IsWritten.nothing;
        soft_holds = IsWritten.nothing;
        in_active = refl;
        stored = refl;
        sealed_stored =
            ap (λ l. l ++ length w.active ∷ []) h.sealed_stored
            ∙ sym (sizes-append w.sealed ((w.active_index, w.active) ∷ []));
        everything = split ∙ sym (append-nil old) ∙ sym (append-nil (old ++ []));
        firmly = append-nil old ∙ sym split ∙ firm_split c firm all w g;
        in_order = h.in_order;
        last_firm = h.last_firm;
      };
      whole = refl;
      last = g.last;
    }

-- The first n bytes of a record are written after the others.
extended :
    (c : Codec) (firm all : List LogRecord) (w : Wal) (r : LogRecord) (bytes left : List ℕ)
    (n m : ℕ) (seq : Option Seq)
    → IsLog c firm all w
    → encode_into c r [] ≡ some bytes
    → Follows w.appended r.seq
    → left ≡ take n bytes
    → Holds c firm
        (all ++ r ∷ [])
        (record w { active = w.active ++ left; active_bytes = m; appended = seq })
extended c firm all w r bytes left n m seq g e f cut =
    let h = g.holds in
    record {
      older = h.older;
      hard = h.hard;
      soft = h.soft ++ r ∷ [];
      extra = h.extra;
      hard_bytes = h.hard_bytes;
      soft_bytes = h.soft_bytes ++ bytes;
      cut = length h.soft_bytes + n;
      sealed_holds = h.sealed_holds;
      hard_holds = h.hard_holds;
      soft_holds = IsWritten-append c h.soft_holds (IsWritten-one c r bytes e);
      in_active =
          ap (λ l. l ++ left) g.whole
          ∙ append_assoc h.hard_bytes h.soft_bytes left
          ∙ ap (λ l. h.hard_bytes ++ (h.soft_bytes ++ l)) cut
          ∙ ap (λ l. h.hard_bytes ++ l) (sym (take-append h.soft_bytes bytes n));
      stored = h.stored;
      sealed_stored = h.sealed_stored;
      everything =
          ap (λ l. l ++ r ∷ []) h.everything ∙ append_assoc (h.older ++ h.hard) h.soft (r ∷ []);
      firmly = h.firmly;
      in_order =
          IsRun-append none all (r ∷ []) h.in_order (subst (λ p. Follows p r.seq) g.last f, tt);
      last_firm = h.last_firm;
    }

-- How an append may end.
abbrev pub AppendEnds : Codec → List LogRecord → List LogRecord → LogRecord → Step → Type 0
AppendEnds c firm all r (done w) = IsLog c firm (all ++ r ∷ []) w × (w.appended ≡ some r.seq)
AppendEnds c firm all r (failed e w) = Holds c firm all w ⊎ Holds c firm (all ++ r ∷ []) w
AppendEnds c firm all r (panicked w) =
    Holds c firm all w × (prev : Seq) × (last_seq none all ≡ some prev) × (next_seq prev ≡ none)

write_ends :
    (c : Codec) (firm all : List LogRecord) (sys : Io) (w : Wal) (r : LogRecord) (bytes : List ℕ)
    → IsLog c firm all w
    → encode_into c r [] ≡ some bytes
    → Follows w.appended r.seq
    → AppendEnds c firm all r (write_record sys r.seq bytes w)
unfolding write_record last_seq extended
write_ends c firm all sys w r bytes g e f =
    let held =
      extended c firm all w r bytes bytes (length bytes) (wrap_u64 (w.active_bytes + length bytes))
        (some r.seq) g e f (sym (take-whole bytes)) in
    option_cases (AppendEnds c firm all r) sys.write_cut _ _
      (λ _. (
        record {
          holds = held;
          whole =
              ap (λ l. l ++ bytes) g.whole
              ∙ append_assoc g.holds.hard_bytes g.holds.soft_bytes bytes;
          last = sym (last_seq-append none all (r ∷ []));
        },
        refl,
      ))
      (λ n _.
        inr (extended c firm all w r bytes (take n bytes) n w.active_bytes w.appended g e f refl))

-- Rotation keeps the log, or leaves what it held.
RotateEnds : Codec → List LogRecord → List LogRecord → Option Seq → Step → Type 0
RotateEnds c firm all last (done w) = IsLog c firm all w × (w.appended ≡ last)
RotateEnds c firm all last (failed e w) = Holds c firm all w
RotateEnds c firm all last (panicked w) = ⊥

rotate-RotateEnds :
    (c : Codec) (firm all : List LogRecord) (sys : Io) (w : Wal)
    → IsLog c firm all w
    → RotateEnds c firm all w.appended (rotate sys w)
unfolding rotate flush sync_data next_segment RotateEnds
rotate-RotateEnds c firm all sys w g =
    let P : Step → Type 0 = RotateEnds c firm all w.appended in
    let index : ℕ = (w.active_index + 1) % 2 ^ 32 in
    if_cases P (not sys.flushed) _ _ (λ _. g.holds)
      (λ _.
        if_cases P (not sys.stored) _ _ (λ _. (passed_on c firm all w g).holds)
          (λ _.
            if_cases P sys.created _ _ (λ _. (rolled c firm all w index g, refl))
              (λ _.
                (harden c firm firm all (g.holds.extra ++ g.holds.soft) w index w.durable g
                  (firm_split c firm all w g) g.holds.last_firm).holds)))

roll_ends :
    (c : Codec) (firm all : List LogRecord) (sys : Io) (w : Wal) (r : LogRecord) (bytes : List ℕ)
    (rolling : Step)
    → encode_into c r [] ≡ some bytes
    → Follows w.appended r.seq
    → RotateEnds c firm all w.appended rolling
    → AppendEnds c firm all r (write_after sys r.seq bytes rolling)
unfolding write_after RotateEnds
roll_ends c firm all sys w r bytes (done rolled) e f ends =
    write_ends c firm all sys rolled r bytes ends.0 e (subst (λ p. Follows p r.seq) (sym ends.1) f)
roll_ends c firm all sys w r bytes (failed error left) e f ends = inl ends
roll_ends c firm all sys w r bytes (panicked left) e f ends = absurd ends

-- From a log with whole records, whatever the file system answers: an append that is done leaves a log
-- with that record at its end, one that failed leaves what was there or a log whose last record is
-- that one, perhaps in part, with no durable record lost; and it panics only at the last number.
pub append-AppendEnds :
    (c : Codec) (firm all : List LogRecord) (sys : Io) (w : Wal) (r : LogRecord)
    → IsLog c firm all w
    → AppendEnds c firm all r (append c sys w r)
unfolding append roll_and_write RotateEnds
append-AppendEnds c firm all sys w r g = linked (link w.appended r.seq) refl
  where
    encoded :
        Follows w.appended r.seq
        → (out : Option (List ℕ)) → encode_into c r [] ≡ out
        → AppendEnds c firm all r (elim out as (λ _. Step) [
          | none ↦ failed WalError.encode w
          | some bytes ↦ roll_and_write sys r.seq w bytes
        ])
    encoded f none e = inl g.holds
    encoded f (some bytes) e =
        roll_ends c firm all sys w r bytes (if is_full w bytes then rotate sys w else done w) e f (
          if_cases (RotateEnds c firm all w.appended) (is_full w bytes) _ _
            (λ _. rotate-RotateEnds c firm all sys w g) (λ _. (g, refl)))

    linked :
        (l : Link)
        → link w.appended r.seq ≡ l
        → AppendEnds c firm all r (elim l as (λ _. Step) [
          | overflow ↦ panicked w
          | gap prev found ↦ failed (sequence_gap prev found) w
          | fits ↦ elim (encode_into c r []) as (λ _. Step) [
            | none ↦ failed WalError.encode w
            | some bytes ↦ roll_and_write sys r.seq w bytes
          ]
        ])
    linked overflow e =
        let (prev, same, top) = overflow-link w.appended r.seq e in
        (g.holds, prev, sym g.last ∙ same, top)
    linked (gap prev found) e = inl g.holds
    linked fits e = encoded (Follows-link w.appended r.seq e) (encode_into c r []) refl

-- How a sync may end.
abbrev pub SyncEnds : Codec → List LogRecord → List LogRecord → Step → Type 0
SyncEnds c firm all (done w) = IsLog c all all w
SyncEnds c firm all (failed e w) = IsLog c firm all w
SyncEnds c firm all (panicked w) = ⊥

pub sync-SyncEnds :
    (c : Codec) (firm all : List LogRecord) (sys : Io) (w : Wal)
    → IsLog c firm all w
    → SyncEnds c firm all (sync sys w)
unfolding sync flush sync_data
sync-SyncEnds c firm all sys w g =
    if_cases (SyncEnds c firm all) (not sys.flushed) _ _ (λ _. g)
      (λ _.
        if_cases (SyncEnds c firm all) (not sys.stored) _ _ (λ _. passed_on c firm all w g)
          (λ _.
            harden c firm all all [] w w.active_index w.appended g (sym (append-nil all)) g.last))
