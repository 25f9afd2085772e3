-- ===== src/Tests/Logs.antt =====
-- crates/auction-wal: frames with a toy codec that writes ticks as two numbers, and a recovery.
use dutch_auction.Base.{
  ℕ, subst, ◌≡◌, refl, arith, List, [], ◌∷◌, ◌++◌, Option, none, some, length, take, lookup, insert,
}
use dutch_auction.Base.Int.{pos}
use dutch_auction.Core.Command.{Command, BidKind}
use dutch_auction.Core.State.{AuctionState, new_state}
use dutch_auction.Core.Apply.{apply}
use dutch_auction.Wal.Record.{
  LogRecord, Codec, frame, encode_into, decode, decoded, incomplete, to_le_bytes,
}
use dutch_auction.Wal.Record.Frame.{IsFaithful, decode-encode_into}
use dutch_auction.Wal.Segment.{contents, read_segment}
use dutch_auction.Wal.Segment.Torn.{IsWritten, read_segment_torn}
use dutch_auction.Wal.Replay.{Recovered, recovered, finished, replay, recover}
use dutch_auction.Wal.Replay.Snapshots.{recover_snapshot}
use dutch_auction.Tests.Data.{config, after}

abbrev pub write : LogRecord → Option (List ℕ)
write r = elim r.cmd [ Command.tick ↦ some (r.seq ∷ r.ts ∷ []) | _ ↦ none ]

abbrev pub read : List ℕ → Option LogRecord
read (seq ∷ ts ∷ []) = some (record { seq = seq; ts = ts; cmd = Command.tick })
read _ = none

abbrev pub codec : Codec
codec = record { serialize = write; deserialize = read; hash = λ _. 7 }

abbrev pub tick : ℕ → ℕ → LogRecord
tick seq ts = record { seq = seq; ts = ts; cmd = Command.tick }

read_written :
    (seq ts : ℕ) (cmd : Command) (payload : List ℕ)
    → write (record { seq = seq; ts = ts; cmd = cmd }) ≡ some payload
    → (read payload ≡ some (record { seq = seq; ts = ts; cmd = cmd })) × (length payload ≡ 2)
read_written seq ts Command.tick payload e =
    let same : seq ∷ ts ∷ [] ≡ payload = cc in
    subst (λ p. (read p ≡ some (tick seq ts)) × (length p ≡ 2)) same (refl, refl)
read_written seq ts Command.opening payload e = cc
read_written seq ts (Command.set_collateral participant limit) payload e = cc
read_written seq ts (Command.submit_bid participant key qty kind) payload e = cc
read_written seq ts (Command.cancel_resting participant key) payload e = cc
read_written seq ts Command.cancel payload e = cc

pub codec-IsFaithful : IsFaithful codec
codec-IsFaithful = record {
  reads_back = λ r payload e. (read_written r.seq r.ts r.cmd payload e).0;
  bounded = λ r payload e.
      let two = (read_written r.seq r.ts r.cmd payload e).1 in (omega arith, omega arith);
  checksum = λ _. omega arith;
}

first_frame : frame codec (4 ∷ 9 ∷ []) ≡ 2 ∷ 0 ∷ 0 ∷ 0 ∷ 7 ∷ 0 ∷ 0 ∷ 0 ∷ 4 ∷ 9 ∷ []
unfolding frame to_le_bytes
first_frame = refl

decode-encode_into_example :
    (encode_into codec (tick 4 9) (1 ∷ []) ≡ some (1 ∷ frame codec (4 ∷ 9 ∷ [])))
    × (decode codec (frame codec (4 ∷ 9 ∷ []) ++ 5 ∷ [])
        ≡ decoded (tick 4 9) (length (frame codec (4 ∷ 9 ∷ []))))
    × (decode codec (take 9 (frame codec (4 ∷ 9 ∷ []))) ≡ incomplete)
unfolding frame to_le_bytes
decode-encode_into_example =
    decode-encode_into codec (tick 4 9) (4 ∷ 9 ∷ []) (1 ∷ []) (5 ∷ []) 9 codec-IsFaithful refl
      (omega arith)

two_ticks :
    IsWritten codec
      (tick 4 9 ∷ tick 5 9 ∷ [])
      (frame codec (4 ∷ 9 ∷ []) ++ frame codec (5 ∷ 9 ∷ []) ++ [])
unfolding encode_into frame to_le_bytes
two_ticks =
    IsWritten.written (tick 4 9) (frame codec (4 ∷ 9 ∷ [])) refl
      (IsWritten.written (tick 5 9) (frame codec (5 ∷ 9 ∷ [])) refl IsWritten.nothing)

read_segment_torn_example :
    read_segment codec (
      (frame codec (4 ∷ 9 ∷ []) ++ frame codec (5 ∷ 9 ∷ []) ++ [])
      ++ take 9 (frame codec (6 ∷ 12 ∷ [])))
    ≡ contents (tick 4 9 ∷ tick 5 9 ∷ []) (length (take 9 (frame codec (6 ∷ 12 ∷ []))))
unfolding frame to_le_bytes
read_segment_torn_example =
    read_segment_torn codec (tick 6 12) (6 ∷ 12 ∷ []) 9 codec-IsFaithful two_ticks refl
      (omega arith)

-- The log of a bid, and the snapshot that was taken before it.
abbrev opening : List LogRecord
opening =
    record { seq = 0; ts = 0; cmd = Command.opening }
    ∷ record { seq = 1; ts = 1; cmd = Command.set_collateral 7 (pos 20_000) }
    ∷ []

abbrev bid : List LogRecord
bid = record { seq = 2; ts = 5; cmd = Command.submit_bid 7 1 8 (BidKind.take (pos 1_000)) } ∷ []

abbrev opened : AuctionState
opened =
    (after (after (new_state config) 0 0 Command.opening).state 1 1
      (Command.set_collateral 7 (pos 20_000))).state

abbrev with_bid : AuctionState
with_bid = (after opened 2 5 (Command.submit_bid 7 1 8 (BidKind.take (pos 1_000)))).state

opening_replayed : replay none none 0 (new_state config) opening ≡ finished opened (some 1) 2
unfolding replay after apply new_state lookup insert
opening_replayed = refl

abbrev whole : Recovered
whole = record { state = with_bid; next_seq = 3; replayed = 3; from_snapshot = none }

log_recovered : recover config (opening ++ bid) none ≡ recovered whole
unfolding recover replay after apply new_state lookup insert
log_recovered = refl

recover_snapshot_example :
    (r' : Recovered) × (recover config (opening ++ bid) (some (record { seq = 1; state = opened }))
      ≡ recovered r')
    × (r'.state ≡ with_bid)
    × (r'.next_seq ≡ 3)
recover_snapshot_example =
    recover_snapshot config opening bid {snap = record { seq = 1; state = opened }} {n = 2}
      {r = whole} opening_replayed log_recovered
