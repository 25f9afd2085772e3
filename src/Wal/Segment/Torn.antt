-- ===== src/Wal/Segment/Torn.antt =====
-- crates/auction-wal/src/segment.rs: a segment reads back, up to a torn record at its end.
use mathlib.Core.List.{append_assoc}
use dutch_auction.Base.{
  ℕ, zero, suc, ◌+◌, ◌≤◌, ◌<◌, ◌≡◌, refl, sym, ◌∙◌, ap, subst, arith, List, [], ◌∷◌, ◌++◌, Option,
  none, some, length, length-append, drop-append, take, if◌then◌else◌, leb, Bool, true, false,
}
use dutch_auction.Wal.Record.{
  LogRecord, Codec, frame, encode_into, incomplete, decode, u32_max, to_le_bytes,
}
use dutch_auction.Wal.Record.Frame.{IsFaithful, decode-encode_into, length-frame}
use dutch_auction.Wal.Segment.{contents, push_record, read_records, read_segment}

-- `bytes` is what `encode_into` writes for the records, one after the other.
pub data IsWritten (c : Codec) : List LogRecord → List ℕ → Type 0 where
  nothing : IsWritten c [] []
  written :
      (r : LogRecord) (bytes : List ℕ) {records : List LogRecord} {later : List ℕ}
      → encode_into c r [] ≡ some bytes
      → IsWritten c records later
      → IsWritten c (r ∷ records) (bytes ++ later)

encoded :
    (c : Codec) (p : Option (List ℕ)) (bytes : List ℕ)
    → (elim p as (λ _. Option (List ℕ)) [
      | none ↦ none
      | some payload ↦ if leb (length payload) u32_max then some (frame c payload) else none
    ])
      ≡ some bytes
    → (payload : List ℕ) × (p ≡ some payload) × (frame c payload ≡ bytes)
encoded c none bytes e = absurd (not_none e)
  where
    not_none : ¬ (none ≡ some bytes)
    not_none e = cc
encoded c (some payload) bytes e = (payload, refl, fits (leb (length payload) u32_max) e)
  where
    fits :
        (b : Bool)
        → (if b then some (frame c payload) else none) ≡ some bytes
        → frame c payload ≡ bytes
    fits true e = cc
    fits false e = cc

pub encode_into_inv :
    (c : Codec) (r : LogRecord) (bytes : List ℕ)
    → encode_into c r [] ≡ some bytes
    → (payload : List ℕ) × (c.serialize r ≡ some payload) × (frame c payload ≡ bytes)
unfolding encode_into
encode_into_inv c r bytes e = encoded c (c.serialize r) bytes e

read_end :
    (c : Codec) (fuel at : ℕ) (tail : List ℕ)
    → decode c tail ≡ incomplete
    → length tail ≤ fuel
    → read_records c fuel at tail ≡ contents [] (length tail)
unfolding read_records
read_end c zero at tail e h = refl
read_end c (suc fuel) at [] e h = refl
read_end c (suc fuel) at (b ∷ tail) e h = rw (e, read_records) refl

-- One round of the loop over a whole record.
read_one :
    (c : Codec) (fuel at : ℕ) (r : LogRecord) (payload rest : List ℕ)
    → IsFaithful c
    → c.serialize r ≡ some payload
    → read_records c (suc fuel) at (frame c payload ++ rest)
      ≡ push_record r (read_records c fuel (at + length (frame c payload)) rest)
unfolding read_records frame to_le_bytes
read_one c fuel at r payload rest v e =
    let whole =
      (decode-encode_into c r payload [] rest 0 v e (omega (arith, length-frame c payload))).1 in
    rw (whole, read_records, drop-append (frame c payload) rest) refl

pub read_records_lem :
    (c : Codec) (fuel at : ℕ) {records : List LogRecord} {bytes : List ℕ} (tail : List ℕ)
    → IsFaithful c
    → IsWritten c records bytes
    → decode c tail ≡ incomplete
    → length (bytes ++ tail) ≤ fuel
    → read_records c fuel at (bytes ++ tail) ≡ contents records (length tail)
unfolding push_record
read_records_lem c fuel at tail v IsWritten.nothing e h = read_end c fuel at tail e h
read_records_lem c zero at tail v (IsWritten.written r bytes {records} {later} w ws) e h =
    let (payload, s, f) = encode_into_inv c r bytes w in
    absurd (
      omega (
        arith,
        longer bytes payload f,
        length-append bytes later,
        length-append (bytes ++ later) tail,
      ))
  where
    longer : (bytes payload : List ℕ) → frame c payload ≡ bytes → length bytes ≡ 8 + length payload
    longer bytes payload f = ap length (sym f) ∙ length-frame c payload
read_records_lem c (suc fuel) at tail v (IsWritten.written r bytes {records} {later} w ws) e h =
    let (payload, s, f) = encode_into_inv c r bytes w in
    let frames : List ℕ = frame c payload in
    let long : length bytes ≡ 8 + length payload = ap length (sym f) ∙ length-frame c payload in
    let enough : length (later ++ tail) ≤ fuel = omega (
      arith,
      long,
      length-append bytes later,
      length-append (bytes ++ later) tail,
      length-append later tail,
    ) in
    subst
      (λ b.
        read_records c (suc fuel) at ((b ++ later) ++ tail) ≡ contents (r ∷ records) (length tail))
      f
      (ap (read_records c (suc fuel) at) (append_assoc frames later tail)
        ∙ read_one c fuel at r payload (later ++ tail) v s
        ∙ ap (push_record r) (read_records_lem c fuel (at + length frames) tail v ws e enough))

-- For a codec that reads back what it writes: a segment that holds whole records and then a part of
-- one more, cut off before its end, reads as exactly those records, and counts the bytes of the part.
pub read_segment_torn :
    (c : Codec) {records : List LogRecord} {bytes : List ℕ} (r : LogRecord) (payload : List ℕ)
    (n : ℕ)
    → IsFaithful c
    → IsWritten c records bytes
    → c.serialize r ≡ some payload
    → n < length (frame c payload)
    → read_segment c (bytes ++ take n (frame c payload))
      ≡ contents records (length (take n (frame c payload)))
unfolding read_segment
read_segment_torn c {records} {bytes} r payload n v w e h =
    let torn = (decode-encode_into c r payload [] [] n v e h).2 in
    read_records_lem c (length (bytes ++ take n (frame c payload))) 0 (take n (frame c payload)) v w
      torn (omega arith)
