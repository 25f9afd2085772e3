-- ===== src/Wal/Log/Written.antt =====
-- crates/auction-wal/src/wal.rs: the bytes of a segment that is cut off somewhere.
use mathlib.Core.List.{append_assoc, append-nil}
use dutch_auction.Base.{
  ℕ, zero, suc, ◌+◌, ◌-◌, ◌<◌, ◌≡◌, refl, sym, ◌∙◌, ap, subst, arith, List, [], ◌∷◌, ◌++◌, some,
  length, take, take-append, take-short, ltb, inl, inr, Bool-cases,
}
use dutch_auction.Wal.Record.{LogRecord, Codec, encode_into, incomplete, decode}
use dutch_auction.Wal.Record.Frame.{IsFaithful, decode-torn, decode-headless}
use dutch_auction.Wal.Segment.Torn.{IsWritten, encode_into_inv}

pub decode-nothing : (c : Codec) → decode c [] ≡ incomplete
decode-nothing c = decode-headless c [] (omega arith)

pub IsWritten-append :
    (c : Codec) {front back : List LogRecord} {bytes more : List ℕ}
    → IsWritten c front bytes
    → IsWritten c back more
    → IsWritten c (front ++ back) (bytes ++ more)
IsWritten-append c IsWritten.nothing v = v
IsWritten-append c {back} {more} (IsWritten.written r bytes {records} {later} e w) v =
    subst (IsWritten c (r ∷ records ++ back)) (sym (append_assoc bytes later more))
      (IsWritten.written r bytes e (IsWritten-append c w v))

pub IsWritten-one :
    (c : Codec) (r : LogRecord) (bytes : List ℕ)
    → encode_into c r [] ≡ some bytes
    → IsWritten c (r ∷ []) bytes
IsWritten-one c r bytes e =
    subst (IsWritten c (r ∷ [])) (append-nil bytes) (IsWritten.written r bytes e IsWritten.nothing)

-- What a cut leaves of written records: whole ones, and a tail that does not decode.
pub record Cut (c : Codec) (records : List LogRecord) (left : List ℕ) : Type 0 where
  pub kept : List LogRecord
  pub lost : List LogRecord
  pub bytes : List ℕ
  pub tail : List ℕ
  pub split : records ≡ kept ++ lost
  pub parts : left ≡ bytes ++ tail
  pub whole : IsWritten c kept bytes
  pub torn : decode c tail ≡ incomplete

torn_written :
    (c : Codec) (r : LogRecord) (bytes : List ℕ) (n : ℕ)
    → IsFaithful c
    → encode_into c r [] ≡ some bytes
    → n < length bytes
    → decode c (take n bytes) ≡ incomplete
torn_written c r bytes n v e h =
    let (payload, s, f) = encode_into_inv c r bytes e in
    let bound = (v.bounded r payload s).1 in
    subst (λ b. n < length b → decode c (take n b) ≡ incomplete) f
      (decode-torn c payload n bound (v.checksum payload)) h

torn_inside :
    (c : Codec) (r : LogRecord) (records : List LogRecord) (bytes later : List ℕ) (n : ℕ)
    → IsFaithful c
    → encode_into c r [] ≡ some bytes
    → n < length bytes
    → Cut c (r ∷ records) (take n (bytes ++ later))
torn_inside c r records bytes later n v e h = record {
  kept = [];
  lost = r ∷ records;
  bytes = [];
  tail = take n bytes;
  split = refl;
  parts = take-short bytes later n (omega arith);
  whole = IsWritten.nothing;
  torn = torn_written c r bytes n v e h;
}

pub keep_written :
    (c : Codec) {records : List LogRecord} {bytes : List ℕ} (n : ℕ)
    → IsFaithful c
    → IsWritten c records bytes
    → Cut c records (take n bytes)
unfolding take
keep_written c zero v IsWritten.nothing = record {
  kept = [];
  lost = [];
  bytes = [];
  tail = [];
  split = refl;
  parts = refl;
  whole = IsWritten.nothing;
  torn = decode-nothing c;
}
keep_written c (suc n) v IsWritten.nothing = record {
  kept = [];
  lost = [];
  bytes = [];
  tail = [];
  split = refl;
  parts = refl;
  whole = IsWritten.nothing;
  torn = decode-nothing c;
}
keep_written c n v (IsWritten.written r bytes {records} {later} e w) =
    elim (Bool-cases (ltb n (length bytes))) [
      | inl early ↦ torn_inside c r records bytes later n v e (ground arith)
      | inr late ↦
          let k = keep_written c (n - length bytes) v w in
          let there : n ≡ length bytes + (n - length bytes) = ground arith in
          record {
            kept = r ∷ k.kept;
            lost = k.lost;
            bytes = bytes ++ k.bytes;
            tail = k.tail;
            split = ap (λ l. r ∷ l) k.split;
            parts =
                ap (λ m. take m (bytes ++ later)) there
                ∙ take-append bytes later (n - length bytes)
                ∙ ap (λ l. bytes ++ l) k.parts
                ∙ sym (append_assoc bytes k.bytes k.tail);
            whole = IsWritten.written r bytes e k.whole;
            torn = k.torn;
          }
    ]
