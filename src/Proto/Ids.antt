-- ===== src/Proto/Ids.antt =====
-- crates/auction-proto/src/ids.rs. An identifier wraps a UUID, which the code only compares: it is
-- the 128-bit number of that UUID. `new` mints a random one at the edge and is not modelled.
use dutch_auction.Base.{ℕ, ◌+◌, Option, none, some, ltb, if◌then◌else◌}
use dutch_auction.Base.Word.{u64_max}

abbrev pub AuctionId : Type 0
AuctionId = ℕ

abbrev pub ParticipantId : Type 0
ParticipantId = ℕ

abbrev pub IdempotencyKey : Type 0
IdempotencyKey = ℕ

-- A position in an auction's total order, a u64.
abbrev pub Seq : Type 0
Seq = ℕ

abbrev pub start_seq : Seq
start_seq = 0

-- `Seq::next`: `none` is the panic on overflow.
unfoldable pub next_seq : Seq → Option Seq
next_seq s = if ltb s u64_max then some (s + 1) else none
