-- ===== src/Wal/Log/Reads.antt =====
-- crates/auction-wal/src/wal.rs: `read_all` on segments that hold records in order.
use mathlib.Core.List.{append_assoc, append-nil}
use dutch_auction.Base.{
  ℕ, ◌≡◌, refl, sym, ◌∙◌, ap, subst, arith, List, [], ◌∷◌, ◌++◌, Option, none, some, true, false,
  ◌&&◌, not, length, ltb, ◌==◌, if◌then◌else◌, Bool-cases, if_cases, inl, inr, ==_iff,
}
use dutch_auction.Proto.Ids.{Seq, next_seq}
use dutch_auction.Wal.Record.{LogRecord, Codec, incomplete, decode}
use dutch_auction.Wal.Record.Frame.{IsFaithful}
use dutch_auction.Wal.Segment.{contents, read_segment}
use dutch_auction.Wal.Segment.Torn.{IsWritten, read_records_lem}
use dutch_auction.Wal.Log.{Segment, Link, fits, gap, overflow, link}
use dutch_auction.Wal.Directory.{records, link_all, last_seq, push_all, is_last, read_segments}
use dutch_auction.Wal.Log.Written.{decode-nothing}

-- A record with this number may stand next.
abbrev pub Follows : Option Seq → Seq → Type 0
Follows none seq = Unit
Follows (some prev) seq = next_seq prev ≡ some seq

-- Every record has the number after that of the one before it.
abbrev pub IsRun : Option Seq → List LogRecord → Type 0
IsRun prev [] = Unit
IsRun prev (r ∷ rs) = Follows prev r.seq × IsRun (some r.seq) rs

-- The sealed segments hold these records.
pub data AreSealed (c : Codec) : List Segment → List LogRecord → Type 0 where
  no_segment : AreSealed c [] []
  one_more :
      (i : ℕ) (bytes : List ℕ) {rs later : List LogRecord} {segments : List Segment}
      → IsWritten c rs bytes
      → AreSealed c segments later
      → AreSealed c ((i, bytes) ∷ segments) (rs ++ later)

pub AreSealed-append :
    (c : Codec) (i : ℕ) (bytes : List ℕ) {rs older : List LogRecord} {segments : List Segment}
    → AreSealed c segments older
    → IsWritten c rs bytes
    → AreSealed c (segments ++ (i, bytes) ∷ []) (older ++ rs)
AreSealed-append c i bytes {rs} AreSealed.no_segment w =
    subst (AreSealed c ((i, bytes) ∷ [])) (append-nil rs)
      (AreSealed.one_more i bytes w AreSealed.no_segment)
AreSealed-append c i bytes {rs} (AreSealed.one_more j front {rs = first} {later} {segments} u s) w =
    subst (AreSealed c (((j, front) ∷ segments) ++ (i, bytes) ∷ []))
      (sym (append_assoc first later rs))
      (AreSealed.one_more j front u (AreSealed-append c i bytes s w))

pub last_seq-append :
    (prev : Option Seq) (xs ys : List LogRecord)
    → last_seq prev (xs ++ ys) ≡ last_seq (last_seq prev xs) ys
unfolding last_seq
last_seq-append prev [] ys = refl
last_seq-append prev (x ∷ xs) ys = last_seq-append (some x.seq) xs ys

pub IsRun-append :
    (prev : Option Seq) (xs ys : List LogRecord)
    → IsRun prev xs
    → IsRun (last_seq prev xs) ys
    → IsRun prev (xs ++ ys)
unfolding last_seq
IsRun-append prev [] ys u v = v
IsRun-append prev (x ∷ xs) ys u v = (u.0, IsRun-append (some x.seq) xs ys u.1 v)

pub IsRun-front :
    (prev : Option Seq) (xs ys : List LogRecord) → IsRun prev (xs ++ ys) → IsRun prev xs
IsRun-front prev [] ys u = tt
IsRun-front prev (x ∷ xs) ys u = (u.0, IsRun-front (some x.seq) xs ys u.1)

pub IsRun-back :
    (prev : Option Seq) (xs ys : List LogRecord)
    → IsRun prev (xs ++ ys)
    → IsRun (last_seq prev xs) ys
unfolding last_seq
IsRun-back prev [] ys u = u
IsRun-back prev (x ∷ xs) ys u = IsRun-back (some x.seq) xs ys u.1

pub link-Follows : (prev : Option Seq) (seq : Seq) → Follows prev seq → link prev seq ≡ fits
unfolding link
link-Follows none seq h = refl
link-Follows (some prev) seq h =
    let same : (seq == seq) ≡ true = ground arith in rw (h, link) (rw same refl)

pub Follows-link : (prev : Option Seq) (seq : Seq) → link prev seq ≡ fits → Follows prev seq
unfolding link
Follows-link none seq h = tt
Follows-link (some prev) seq h = from_next (next_seq prev) h
  where
    from_test :
        (next : Seq) → (if seq == next then fits else gap prev seq) ≡ fits → some next ≡ some seq
    from_test next e = elim (Bool-cases (seq == next)) [
      | inl same ↦ ap some (sym ((==_iff seq next).0 same))
      | inr other ↦ absurd (apart (subst (λ b. (if b then fits else gap prev seq) ≡ fits) other e))
    ]
      where
        apart : ¬ (gap prev seq ≡ fits)
        apart e = cc

    from_next :
        (next : Option Seq)
        → (elim next as (λ _. Link) [
          | none ↦ overflow
          | some n ↦ if seq == n then fits else gap prev seq
        ])
          ≡ fits
        → next ≡ some seq
    from_next none e = cc
    from_next (some n) e = from_test n e

pub overflow-link :
    (prev : Option Seq) (seq : Seq)
    → link prev seq ≡ overflow
    → (last : Seq) × (prev ≡ some last) × (next_seq last ≡ none)
unfolding link
overflow-link none seq h = cc
overflow-link (some prev) seq h = (prev, refl, from_next (next_seq prev) h)
  where
    from_test : (next : Seq) → ¬ ((if seq == next then fits else gap prev seq) ≡ overflow)
    from_test next =
        if_cases (λ l. ¬ (l ≡ overflow)) (seq == next) fits (gap prev seq) (λ _ e. cc) (λ _ e. cc)

    from_next :
        (next : Option Seq)
        → (elim next as (λ _. Link) [
          | none ↦ overflow
          | some n ↦ if seq == n then fits else gap prev seq
        ])
          ≡ overflow
        → next ≡ none
    from_next none e = refl
    from_next (some n) e = absurd (from_test n e)

pub link_all-IsRun :
    (prev : Option Seq) (rs : List LogRecord) → IsRun prev rs → link_all prev rs ≡ fits
unfolding link_all
link_all-IsRun prev [] h = refl
link_all-IsRun prev (r ∷ rs) h =
    rw (link-Follows prev r.seq h.0, link_all) (link_all-IsRun (some r.seq) rs h.1)

pub read_whole :
    (c : Codec) {rs : List LogRecord} {bytes : List ℕ} (tail : List ℕ)
    → IsFaithful c
    → IsWritten c rs bytes
    → decode c tail ≡ incomplete
    → read_segment c (bytes ++ tail) ≡ contents rs (length tail)
unfolding read_segment
read_whole c {rs} {bytes} tail v w e =
    read_records_lem c (length (bytes ++ tail)) 0 tail v w e (omega arith)

-- One round of the loop over the segments.
read_step :
    (c : Codec) (prev : Option Seq) (i : ℕ) (bytes : List ℕ) (rs : List LogRecord) (trailing : ℕ)
    (segments : List Segment)
    → read_segment c bytes ≡ contents rs trailing
    → (ltb 0 trailing && not (is_last segments)) ≡ false
    → IsRun prev rs
    → read_segments c prev ((i, bytes) ∷ segments)
      ≡ push_all rs (read_segments c (last_seq prev rs) segments)
unfolding read_segments
read_step c prev i bytes rs trailing segments e clean run =
    rw (e, read_segments) (rw (clean, link_all-IsRun prev rs run) refl)

pub read_segments_lem :
    (c : Codec) (prev : Option Seq) {segments : List Segment} {older recent : List LogRecord}
    {bytes : List ℕ} (i : ℕ) (tail : List ℕ)
    → IsFaithful c
    → AreSealed c segments older
    → IsWritten c recent bytes
    → decode c tail ≡ incomplete
    → IsRun prev (older ++ recent)
    → read_segments c prev (segments ++ (i, bytes ++ tail) ∷ []) ≡ records (older ++ recent)
unfolding read_segments push_all is_last
read_segments_lem c prev {recent} {bytes} i tail v AreSealed.no_segment w e run =
    read_step c prev i (bytes ++ tail) recent (length tail) [] (read_whole c tail v w e)
      (ground arith) run
    ∙ ap records (append-nil recent)
read_segments_lem c prev {recent} {bytes} i tail v
      (AreSealed.one_more j front {rs} {later} {segments} u s) w e run =
    let run' : IsRun prev (rs ++ (later ++ recent)) =
      subst (IsRun prev) (append_assoc rs later recent) run in
    let first : read_segment c front ≡ contents rs 0 =
      subst (λ b. read_segment c b ≡ contents rs 0) (append-nil front)
        (read_whole c [] v u (decode-nothing c)) in
    read_step c prev j front rs 0 (segments ++ (i, bytes ++ tail) ∷ []) first refl
      (IsRun-front prev rs (later ++ recent) run')
    ∙ ap (push_all rs) (
        read_segments_lem c (last_seq prev rs) i tail v s w e
          (IsRun-back prev rs (later ++ recent) run'))
    ∙ ap records (sym (append_assoc rs later recent))
