-- ===== src/Wal/Record.antt =====
-- crates/auction-wal/src/record.rs: the log record and its frame. A byte is a number below 256. The
-- encoding of a record (bincode) and the checksum (crc32fast) are parameters.
pub mod Frame
use dutch_auction.Base.{
  ℕ, zero, suc, ◌+◌, ◌-◌, ◌*◌, ◌/◌, ◌%◌, ◌^◌, List, [], ◌∷◌, ◌++◌, Option, none, some, Bool, ◌||◌,
  length, ltb, leb, ◌==◌, if◌then◌else◌, take, drop,
}
use dutch_auction.Proto.Ids.{Seq}
use dutch_auction.Proto.Time.{Nanos}
use dutch_auction.Core.Command.{Command}

pub record LogRecord : Type 0 where
  pub seq : Seq
  pub ts : Nanos
  pub cmd : Command

abbrev pub header_len : ℕ
header_len = 8

abbrev pub max_record_len : ℕ
max_record_len = 2 ^ 20

-- `u32::MAX`
abbrev pub u32_max : ℕ
u32_max = 2 ^ 32 - 1

-- `u32::to_le_bytes`
unfoldable pub to_le_bytes : ℕ → List ℕ
to_le_bytes n = n % 256 ∷ n / 256 % 256 ∷ n / 65_536 % 256 ∷ n / 16_777_216 % 256 ∷ []

-- `u32::from_le_bytes`, of the four bytes of a slice
unfoldable pub from_le_bytes : List ℕ → ℕ
from_le_bytes [] = 0
from_le_bytes (b ∷ bytes) = b + 256 * from_le_bytes bytes

-- What `bincode` and `crc32fast` do.
pub record Codec : Type 0 where
  -- `bincode::serialize_into`, `none` for an error
  pub serialize : LogRecord → Option (List ℕ)
  -- `bincode::deserialize`, `none` for an error
  pub deserialize : List ℕ → Option LogRecord
  -- `crc32fast::hash`
  pub hash : List ℕ → ℕ

-- What `encode_into` appends: the length and the checksum of the payload, and the payload.
unfoldable pub frame : Codec → List ℕ → List ℕ
unfolding to_le_bytes
frame c payload = to_le_bytes (length payload) ++ to_le_bytes (c.hash payload) ++ payload

-- `encode_into`: `none` is the error, after which the buffer is not used
unfoldable pub encode_into : Codec → LogRecord → List ℕ → Option (List ℕ)
unfolding frame
encode_into c r out = elim (c.serialize r) [
  | none ↦ none
  | some payload ↦ if leb (length payload) u32_max then some (out ++ frame c payload) else none
]

pub data Decoded : Type 0 where
  decoded : LogRecord → ℕ → Decoded
  incomplete : Decoded
  malformed : Decoded

-- the end of `decode`, on a payload whose checksum fits
unfoldable pub decode_payload : Codec → List ℕ → ℕ → Decoded
decode_payload c payload end = elim (c.deserialize payload) [
  | some r ↦ decoded r end
  | none ↦ malformed
]

unfoldable pub decode : Codec → List ℕ → Decoded
unfolding from_le_bytes decode_payload
decode c buf =
    let len = from_le_bytes (take 4 buf) in
    let crc = from_le_bytes (take 4 (drop 4 buf)) in
    let end = header_len + len in
    let payload = take len (drop 8 buf) in
    if ltb (length buf) header_len
    then incomplete
    else if len == 0 || ltb max_record_len len
    then incomplete
    else if ltb (length buf) end
    then incomplete
    else if c.hash payload == crc
    then decode_payload c payload end
    else incomplete
