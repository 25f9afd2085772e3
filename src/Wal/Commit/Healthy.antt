-- ===== src/Wal/Commit/Healthy.antt =====
-- crates/auction-wal/src/commit.rs: the writer on a file system that does what it is asked.
use dutch_auction.Base.{
  ℕ, suc, ◌+◌, ◌≡◌, refl, sym, ◌∙◌, subst, List, [], ◌∷◌, ◌++◌, none, some, length, if_cases, All,
}
use dutch_auction.Wal.Record.{LogRecord, Codec, encode_into}
use dutch_auction.Wal.Log.{
  Wal, healthy, Step, done, failed, panicked, rotate, write_record, write_after, is_full,
  roll_and_write, append, sync,
}
use dutch_auction.Wal.Directory.{last_seq}
use dutch_auction.Wal.Log.Reads.{Follows, IsRun, link-Follows}
use dutch_auction.Wal.Log.Durable.{IsLog, AppendEnds, append-AppendEnds}
use dutch_auction.Wal.Commit.{
  Mark, Phase, Writer, append_all, sync_after, publish_after, write_batch,
}

-- The record can be encoded.
abbrev pub IsWritable : Codec → LogRecord → Type 0
IsWritable c r = (bytes : List ℕ) × (encode_into c r [] ≡ some bytes)

-- The step went well.
abbrev pub WentWell : Step → Type 0
WentWell (done w) = Unit
WentWell (failed e w) = ⊥
WentWell (panicked w) = ⊥

append_well :
    (c : Codec) (w : Wal) (r : LogRecord)
    → Follows w.appended r.seq
    → IsWritable c r
    → WentWell (append c healthy w r)
unfolding append roll_and_write write_after rotate write_record
append_well c w r f (bytes, e) =
    rw (link-Follows w.appended r.seq f, append)
      (rw (e, append)
        (if_cases (λ s. WentWell (write_after healthy r.seq bytes s)) (is_full w bytes)
          (rotate healthy w) (done w) (λ _. tt) (λ _. tt)))

append_all_well :
    (c : Codec) (n : ℕ) (firm all batch : List LogRecord) (w : Wal)
    → IsLog c firm all w
    → IsRun (last_seq none all) batch
    → All (IsWritable c) batch
    → WentWell (append_all c (λ _. healthy) n w batch)
unfolding append_all last_seq
append_all_well c n firm all [] w g run ok = tt
append_all_well c n firm all (r ∷ rs) w g run ok =
    from_append (append c healthy w r) (append-AppendEnds c firm all healthy w r g)
      (append_well c w r (subst (λ p. Follows p r.seq) (sym g.last) run.0) ok.0)
      (λ w' h last.
        append_all_well c (suc n) firm (all ++ r ∷ []) rs w' h
          (subst (λ p. IsRun p rs) (sym last ∙ h.last) run.1) ok.1)
  where
    from_append :
        (s : Step)
        → AppendEnds c firm all r s
        → WentWell s
        → ((w' : Wal)
            → IsLog c firm (all ++ r ∷ []) w'
            → w'.appended ≡ some r.seq
            → WentWell (append_all c (λ _. healthy) (suc n) w' rs))
        → WentWell (elim s as (λ _. Step) [
          | done w' ↦ append_all c (λ _. healthy) (suc n) w' rs
          | failed e w' ↦ failed e w'
          | panicked w' ↦ panicked w'
        ])
    from_append (done w') ends ok rest = rest w' ends.0 ends.1
    from_append (failed e w') ends ok rest = ok
    from_append (panicked w') ends ok rest = ok

sync_well : (s : Step) → WentWell s → WentWell (sync_after healthy s)
unfolding sync_after sync
sync_well (done w) ok = tt
sync_well (failed e w) ok = ok
sync_well (panicked w) ok = ok

phase_after :
    (calls : ℕ) (next : Phase) (m : Mark) (s : Step)
    → WentWell s
    → (publish_after calls next m s).phase ≡ next
unfolding publish_after
phase_after calls next m (done w) ok = refl
phase_after calls next m (failed e w) ok = absurd ok
phase_after calls next m (panicked w) ok = absurd ok

-- A batch that is written.
pub write_batch_well :
    (c : Codec) (firm all batch : List LogRecord) (next : Phase) (t : Writer)
    → IsLog c firm all t.wal
    → IsRun (last_seq none all) batch
    → All (IsWritable c) batch
    → (write_batch c (λ _. healthy) batch next t).phase ≡ next
unfolding write_batch
write_batch_well c firm all batch next t g run ok =
    phase_after (suc (t.calls + length batch)) next t.mark
      (sync_after healthy (append_all c (λ _. healthy) t.calls t.wal batch))
      (sync_well (append_all c (λ _. healthy) t.calls t.wal batch)
        (append_all_well c t.calls firm all batch t.wal g run ok))
