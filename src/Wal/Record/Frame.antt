-- ===== src/Wal/Record/Frame.antt =====
-- crates/auction-wal/src/record.rs: a framed record reads back, and a torn one does not read.
use dutch_auction.Base.{
  ℕ, ◌+◌, ◌-◌, ◌≤◌, ◌<◌, ◌≡◌, refl, sym, ◌∙◌, ap, arith, List, ◌++◌, some, true, false, ◌||◌,
  length, ltb, leb, inl, inr, ◌==◌, if◌then◌else◌, take, drop, subst, take-append, take-all,
  if_cases, length-take, length-append, Bool-cases,
}
use dutch_auction.Wal.Record.{
  LogRecord, Codec, to_le_bytes, from_le_bytes, frame, encode_into, decoded, incomplete, decode,
  decode_payload, header_len, max_record_len, u32_max,
}

-- What the code relies on: `bincode` reads back what it wrote, in at least one byte and at most the
-- bound on a record, and a checksum is a u32.
pub record IsFaithful (c : Codec) : Type 0 where
  pub reads_back :
      (r : LogRecord) (payload : List ℕ)
      → c.serialize r ≡ some payload
      → c.deserialize payload ≡ some r
  pub bounded :
      (r : LogRecord) (payload : List ℕ)
      → c.serialize r ≡ some payload
      → (0 < length payload) × (length payload ≤ max_record_len)
  pub checksum : (payload : List ℕ) → c.hash payload ≤ u32_max

pub from_le_bytes-to_le_bytes : (n : ℕ) → n ≤ u32_max → from_le_bytes (to_le_bytes n) ≡ n
unfolding from_le_bytes to_le_bytes
from_le_bytes-to_le_bytes n h = omega arith

-- A buffer with a whole header.
abbrev framed : ℕ → ℕ → List ℕ → List ℕ
framed len crc rest = to_le_bytes len ++ to_le_bytes crc ++ rest

length-framed : (len crc : ℕ) (rest : List ℕ) → length (framed len crc rest) ≡ 8 + length rest
unfolding to_le_bytes
length-framed len crc rest = omega arith

header_lem :
    (len crc : ℕ) (rest : List ℕ)
    → len ≤ u32_max
    → crc ≤ u32_max
    → (from_le_bytes (take 4 (framed len crc rest)) ≡ len)
      × (from_le_bytes (take 4 (drop 4 (framed len crc rest))) ≡ crc)
      × (drop 8 (framed len crc rest) ≡ rest)
unfolding take drop to_le_bytes from_le_bytes
header_lem len crc rest hl hc = (omega arith, omega arith, refl)

-- `decode` on a buffer with a whole header.
decode-framed :
    (c : Codec) (len crc : ℕ) (rest : List ℕ)
    → len ≤ u32_max
    → crc ≤ u32_max
    → decode c (framed len crc rest) ≡ (
        if len == 0 || ltb max_record_len len
        then incomplete
        else if ltb (length rest) len
        then incomplete
        else if c.hash (take len rest) == crc
        then decode_payload c (take len rest) (8 + len)
        else incomplete)
unfolding decode
decode-framed c len crc rest hl hc =
    let (e, f, g) = header_lem len crc rest hl hc in
    let l = length-framed len crc rest in
    let whole : ltb (length (framed len crc rest)) 8 ≡ false = ground (arith, l) in
    let same : ltb (length (framed len crc rest)) (8 + len) ≡ ltb (length rest) len =
      ground (arith, l) in
    rw (e, f, g, whole, same) refl

read_payload :
    (c : Codec) (payload : List ℕ) (r : LogRecord) (end : ℕ)
    → c.deserialize payload ≡ some r
    → decode_payload c payload end ≡ decoded r end
unfolding decode_payload
read_payload c payload r end e = rw (e, decode_payload) refl

pub decode-whole :
    (c : Codec) (r : LogRecord) (payload rest : List ℕ)
    → c.deserialize payload ≡ some r
    → 0 < length payload
    → length payload ≤ max_record_len
    → c.hash payload ≤ u32_max
    → decode c (frame c payload ++ rest) ≡ decoded r (8 + length payload)
unfolding frame to_le_bytes decode_payload take
decode-whole c r payload rest d pos small crc =
    let cut : take (length payload) (payload ++ rest) ≡ payload = take-all payload rest in
    let fits : (length payload == 0 || ltb max_record_len (length payload)) ≡ false =
      ground arith in
    let there : ltb (length (payload ++ rest)) (length payload) ≡ false =
      ground (arith, length-append payload rest) in
    let ok : (c.hash payload == c.hash payload) ≡ true = ground arith in
    decode-framed c (length payload) (c.hash payload) (payload ++ rest) (omega arith) crc
    ∙ rw (cut, fits, there, ok) (read_payload c payload r (8 + length payload) d)

pub decode-short :
    (c : Codec) (len crc : ℕ) (rest : List ℕ)
    → len ≤ u32_max
    → crc ≤ u32_max
    → length rest < len
    → decode c (framed len crc rest) ≡ incomplete
decode-short c len crc rest h hc short =
    let gone : ltb (length rest) len ≡ true = ground arith in
    decode-framed c len crc rest h hc
    ∙ if_cases (λ v. v ≡ incomplete) (len == 0 || ltb max_record_len len) _ _ (λ _. refl)
        (λ _. rw gone refl)

-- A header that is cut off.
pub decode-headless :
    (c : Codec) (buf : List ℕ) → length buf < header_len → decode c buf ≡ incomplete
unfolding decode
decode-headless c buf h = let e : ltb (length buf) 8 ≡ true = ground arith in rw e refl

pub length-frame : (c : Codec) (payload : List ℕ) → length (frame c payload) ≡ 8 + length payload
unfolding frame
length-frame c payload = length-framed (length payload) (c.hash payload) payload

-- A frame that is cut off inside its payload.
decode-cut :
    (c : Codec) (payload : List ℕ) (m : ℕ)
    → length payload ≤ max_record_len
    → c.hash payload ≤ u32_max
    → m < length payload
    → decode c (take (8 + m) (frame c payload)) ≡ incomplete
unfolding frame to_le_bytes
decode-cut c payload m small crc h =
    let header : List ℕ = to_le_bytes (length payload) ++ to_le_bytes (c.hash payload) in
    ap (decode c) (take-append header payload m)
    ∙ decode-short c (length payload) (c.hash payload) (take m payload) (omega arith) crc
        (omega (arith, length-take m payload))

pub decode-torn :
    (c : Codec) (payload : List ℕ) (n : ℕ)
    → length payload ≤ max_record_len
    → c.hash payload ≤ u32_max
    → n < length (frame c payload)
    → decode c (take n (frame c payload)) ≡ incomplete
decode-torn c payload n small crc h = elim (Bool-cases (ltb n 8)) [
  | inl early ↦
      decode-headless c (take n (frame c payload))
        (let lt : n < 8 = ground arith in omega (arith, length-take n (frame c payload)))
  | inr late ↦
      let e : n ≡ 8 + (n - 8) = ground arith in
      subst (λ k. decode c (take k (frame c payload)) ≡ incomplete) (sym e)
        (decode-cut c payload (n - 8) small crc (omega (arith, length-frame c payload)))
]

-- For a codec that reads back what it writes: what `encode_into` appends for a record decodes to that
-- record, whatever follows, and the decoder consumes exactly what was appended; and cut off anywhere
-- before its end it decodes as incomplete.
pub decode-encode_into :
    (c : Codec) (r : LogRecord) (payload out rest : List ℕ) (n : ℕ)
    → IsFaithful c
    → c.serialize r ≡ some payload
    → n < length (frame c payload)
    → (encode_into c r out ≡ some (out ++ frame c payload))
      × (decode c (frame c payload ++ rest) ≡ decoded r (length (frame c payload)))
      × (decode c (take n (frame c payload)) ≡ incomplete)
unfolding encode_into
decode-encode_into c r payload out rest n v e short =
    let (pos, small) = v.bounded r payload e in
    let fits : leb (length payload) u32_max ≡ true = ground arith in
    (
      rw (e, encode_into) (rw fits refl),
      decode-whole c r payload rest (v.reads_back r payload e) pos small (v.checksum payload)
          ∙ ap (decoded r) (sym (length-frame c payload)),
      decode-torn c payload n small (v.checksum payload) short,
    )
