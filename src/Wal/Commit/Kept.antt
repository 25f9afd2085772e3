-- ===== src/Wal/Commit/Kept.antt =====
-- crates/auction-wal/src/commit.rs: what the writer thread keeps, whatever the channel and the file
-- system answer.
use mathlib.Core.List.{append_assoc, append-nil}
use dutch_auction.Base.{
  ℕ, suc, ◌+◌, ◌≤◌, ◌≡◌, inl, inr, refl, sym, ◌∙◌, ap, subst, arith, List, [], ◌∷◌, ◌++◌, Option,
  none, some, true, length, ltb, leb, if_cases,
}
use dutch_auction.Proto.Ids.{Seq, next_seq}
use dutch_auction.Wal.Record.{LogRecord, Codec}
use dutch_auction.Wal.Log.{Wal, Io, Step, done, failed, panicked, append, sync}
use dutch_auction.Wal.Directory.{last_seq}
use dutch_auction.Wal.Log.Reads.{IsRun, IsRun-back, last_seq-append}
use dutch_auction.Wal.Log.Durable.{
  Holds, IsLog, firm_split, AppendEnds, append-AppendEnds, SyncEnds, sync-SyncEnds,
}
use dutch_auction.Wal.Commit.{
  Mark, live, closed, leb_option, publish, durable_of, close, Phase, idle, gathering, draining,
  ended, crashed, Writer, append_all, sync_after, publish_after, write_batch, gather, close_down,
  finish,
}

-- The number of the last record does not fall as records follow.
next_above : (p s : Seq) → next_seq p ≡ some s → p ≤ s
unfolding next_seq
next_above p s h = ground (arith, h)

pub leb_option_trans :
    (a b d : Option Seq) → leb_option a b ≡ true → leb_option b d ≡ true → leb_option a d ≡ true
unfolding leb_option
leb_option_trans none b d h k = refl
leb_option_trans (some x) none d h k = cc
leb_option_trans (some x) (some y) none h k = cc
leb_option_trans (some x) (some y) (some z) h k = ground arith

last_seq_grows :
    (prev : Option Seq) (rs : List LogRecord)
    → IsRun prev rs
    → leb_option prev (last_seq prev rs) ≡ true
unfolding leb_option last_seq next_seq
last_seq_grows none rs run = refl
last_seq_grows (some p) [] run = ground arith
last_seq_grows (some p) (r ∷ rs) run =
    let step : leb_option (some p) (some r.seq) ≡ true =
      (let le = next_above p r.seq run.0 in ground arith) in
    leb_option_trans (some p) (some r.seq) (last_seq (some r.seq) rs) step
      (last_seq_grows (some r.seq) rs run.1)

publish_forward :
    (d seq : Option Seq) → leb_option d seq ≡ true → durable_of (publish seq (live d)) ≡ seq
unfolding publish durable_of leb_option
publish_forward none none h = refl
publish_forward none (some s) h = refl
publish_forward (some d) none h = cc
publish_forward (some d) (some s) h =
    if_cases (λ m. durable_of m ≡ some s) (leb s d) _ _
      (λ back. let same : d ≡ s = ground arith in ap some same) (λ _. refl)

abbrev pub IsLive : Mark → Type 0
IsLive (live durable) = Unit
IsLive (closed durable reason) = ⊥

abbrev pub IsClosed : Mark → Type 0
IsClosed (live durable) = ⊥
IsClosed (closed durable reason) = Unit

-- Of the records that reached the writer, `all` are in the log and a batch waits.
abbrev pub IsWriting :
    Codec → List LogRecord → List LogRecord → List LogRecord → List LogRecord → Wal → Mark → Type 0
IsWriting c total firm all batch w m =
    IsLog c firm all w × IsLive m × (all ++ batch ≡ total) × (firm ≡ all)

-- The log holds the first of them, and no more is written.
abbrev pub IsOver : Codec → List LogRecord → List LogRecord → List LogRecord → Wal → Type 0
IsOver c total firm all w = Holds c firm all w × (later : List LogRecord) × (all ++ later ≡ total)

abbrev pub IsAt :
    Codec → List LogRecord → List LogRecord → List LogRecord → Wal → Mark → Phase → Type 0
IsAt c total firm all w m idle = IsWriting c total firm all [] w m
IsAt c total firm all w m (gathering batch) = IsWriting c total firm all batch w m
IsAt c total firm all w m (draining batch) = IsWriting c total firm all batch w m
IsAt c total firm all w m ended = IsOver c total firm all w × IsClosed m
IsAt c total firm all w m crashed = IsOver c total firm all w

-- `total` are the records of the log at the start and those that the channel gave since.
pub record IsKept (c : Codec) (total : List LogRecord) (t : Writer) : Type 0 where
  pub firm : List LogRecord
  pub all : List LogRecord
  pub at : IsAt c total firm all t.wal t.mark t.phase
  pub known : durable_of t.mark ≡ last_seq none firm

-- How the appends of a batch may end, `total` being what the log holds with all of them.
BatchEnds : Codec → List LogRecord → List LogRecord → Step → Type 0
BatchEnds c total firm (done w) = IsLog c firm total w
BatchEnds c total firm (failed e w) = (held : List LogRecord) × IsOver c total firm held w
BatchEnds c total firm (panicked w) = (held : List LogRecord) × IsOver c total firm held w

append_all-BatchEnds :
    (c : Codec) (sys : ℕ → Io) (n : ℕ) (firm all batch : List LogRecord) (w : Wal)
    → IsLog c firm all w
    → BatchEnds c (all ++ batch) firm (append_all c sys n w batch)
unfolding append_all BatchEnds
append_all-BatchEnds c sys n firm all [] w g =
    subst (λ l. IsLog c firm l w) (sym (append-nil all)) g
append_all-BatchEnds c sys n firm all (r ∷ rs) w g =
    from_append (append c (sys n) w r) (append-AppendEnds c firm all (sys n) w r g)
      (λ w' h. append_all-BatchEnds c sys (suc n) firm (all ++ r ∷ []) rs w' h)
  where
    from_append :
        (s : Step)
        → AppendEnds c firm all r s
        → ((w' : Wal)
            → IsLog c firm (all ++ r ∷ []) w'
            → BatchEnds c (all ++ r ∷ [] ++ rs) firm (append_all c sys (suc n) w' rs))
        → BatchEnds c (all ++ r ∷ rs) firm (elim s as (λ _. Step) [
          | done w' ↦ append_all c sys (suc n) w' rs
          | failed e w' ↦ failed e w'
          | panicked w' ↦ panicked w'
        ])
    from_append (done w') ends rest =
        subst (λ l. BatchEnds c l firm (append_all c sys (suc n) w' rs))
          (append_assoc all (r ∷ []) rs) (rest w' ends.0)
    from_append (failed e w') (inl h) rest = (all, (h, r ∷ rs, refl))
    from_append (failed e w') (inr h) rest = (all ++ r ∷ [], (h, rs, append_assoc all (r ∷ []) rs))
    from_append (panicked w') ends rest = (all, (ends.0, r ∷ rs, refl))

-- The sync makes what was durable grow to everything.
StoredEnds : Codec → List LogRecord → List LogRecord → Step → Type 0
StoredEnds c total firm (done w) = IsLog c total total w
StoredEnds c total firm (failed e w) = (held : List LogRecord) × IsOver c total firm held w
StoredEnds c total firm (panicked w) = (held : List LogRecord) × IsOver c total firm held w

sync_after-StoredEnds :
    (c : Codec) (total firm : List LogRecord) (sys : Io) (s : Step)
    → BatchEnds c total firm s
    → StoredEnds c total firm (sync_after sys s)
unfolding sync_after BatchEnds StoredEnds
sync_after-StoredEnds c total firm sys (done w) g =
    from_sync (sync sys w) (sync-SyncEnds c firm total sys w g)
  where
    from_sync : (s : Step) → SyncEnds c firm total s → StoredEnds c total firm s
    from_sync (done w') ends = ends
    from_sync (failed e w') ends = (total, (ends.holds, [], append-nil total))
    from_sync (panicked w') ends = absurd ends
sync_after-StoredEnds c total firm sys (failed e w) ends = ends
sync_after-StoredEnds c total firm sys (panicked w) ends = ends

-- Where the writer goes on after a batch.
abbrev pub GoesOn : Phase → Type 0
GoesOn idle = Unit
GoesOn (gathering batch) = ⊥
GoesOn (draining []) = Unit
GoesOn (draining (r ∷ rs)) = ⊥
GoesOn ended = ⊥
GoesOn crashed = ⊥

goes_on :
    (c : Codec) (total : List LogRecord) (w : Wal) (m : Mark) (next : Phase)
    → GoesOn next
    → IsLog c total total w
    → IsLive m
    → IsAt c total total total w m next
goes_on c total w m idle n g l = (g, l, append-nil total, refl)
goes_on c total w m (gathering batch) n g l = absurd n
goes_on c total w m (draining []) n g l = (g, l, append-nil total, refl)
goes_on c total w m (draining (r ∷ rs)) n g l = absurd n
goes_on c total w m ended n g l = absurd n
goes_on c total w m crashed n g l = absurd n

published :
    (seq : Option Seq) (m : Mark)
    → IsLive m
    → leb_option (durable_of m) seq ≡ true
    → IsLive (publish seq m) × (durable_of (publish seq m) ≡ seq)
unfolding publish durable_of
published seq (live d) l h = (
  if_cases IsLive (leb_option seq d) (live d) (live seq) (λ _. tt) (λ _. tt),
  publish_forward d seq h,
)
published seq (closed d reason) l h = absurd l

publish_after-IsKept :
    (c : Codec) (total firm extra : List LogRecord) (calls : ℕ) (next : Phase) (m : Mark) (s : Step)
    → GoesOn next
    → IsLive m
    → durable_of m ≡ last_seq none firm
    → total ≡ firm ++ extra
    → StoredEnds c total firm s
    → IsKept c total (publish_after calls next m s)
unfolding publish_after StoredEnds close durable_of
publish_after-IsKept c total firm extra calls next m (done w) n l known front g =
    let run : IsRun none (firm ++ extra) = subst (IsRun none) front g.holds.in_order in
    let ahead : leb_option (durable_of m) w.durable ≡ true =
      subst (λ p. leb_option (durable_of m) p ≡ true)
        (sym (g.holds.last_firm ∙ ap (last_seq none) front ∙ last_seq-append none firm extra))
        (subst (λ p. leb_option p (last_seq (last_seq none firm) extra) ≡ true) (sym known)
          (last_seq_grows (last_seq none firm) extra (IsRun-back none firm extra run))) in
    let (still, at) = published w.durable m l ahead in
    record {
      firm = total;
      all = total;
      at = goes_on c total w (publish w.durable m) next n g still;
      known = at ∙ g.holds.last_firm;
    }
publish_after-IsKept c total firm extra calls next m (failed e w) n l known front ends = record {
  firm = firm;
  all = ends.0;
  at = (ends.1, tt);
  known = known;
}
publish_after-IsKept c total firm extra calls next m (panicked w) n l known front ends = record {
  firm = firm;
  all = ends.0;
  at = ends.1;
  known = known;
}

-- A batch that is written, or that ends the writer.
pub write_batch-IsKept :
    (c : Codec) (sys : ℕ → Io) (total firm all batch : List LogRecord) (next : Phase) (t : Writer)
    → GoesOn next
    → IsWriting c total firm all batch t.wal t.mark
    → durable_of t.mark ≡ last_seq none firm
    → IsKept c total (write_batch c sys batch next t)
unfolding write_batch
write_batch-IsKept c sys total firm all batch next t n (g, l, e, f) known =
    let last : ℕ = t.calls + length batch in
    let h = g.holds in
    let front : total ≡ firm ++ (h.extra ++ h.soft ++ batch) =
      sym e
      ∙ ap (λ l. l ++ batch) (firm_split c firm all t.wal g)
      ∙ append_assoc firm (h.extra ++ h.soft) batch in
    publish_after-IsKept c total firm (h.extra ++ h.soft ++ batch) (suc last) next t.mark
      (sync_after (sys last) (append_all c sys t.calls t.wal batch)) n l known front
      (sync_after-StoredEnds c total firm (sys last) (append_all c sys t.calls t.wal batch) (
        subst (λ k. BatchEnds c k firm (append_all c sys t.calls t.wal batch)) e
          (append_all-BatchEnds c sys t.calls firm all batch t.wal g)))

pub gather-IsKept :
    (c : Codec) (sys : ℕ → Io) (total firm all batch : List LogRecord) (t : Writer)
    → IsWriting c total firm all batch t.wal t.mark
    → durable_of t.mark ≡ last_seq none firm
    → IsKept c total (gather c sys batch t)
unfolding gather
gather-IsKept c sys total firm all batch t at known =
    if_cases (IsKept c total) (ltb (length batch) t.wal.options.max_batch) _ _
      (λ _. record { firm = firm; all = all; at = at; known = known })
      (λ _. write_batch-IsKept c sys total firm all batch idle t tt at known)

close_down-IsKept :
    (c : Codec) (total : List LogRecord) (wal : Wal) (m : Mark) (calls : ℕ) (phase : Phase)
    → IsKept c total (record { wal = wal; mark = m; calls = calls; phase = phase })
    → IsKept c total (close_down (record { wal = wal; mark = m; calls = calls; phase = phase }))
unfolding close_down close durable_of
close_down-IsKept c total wal m calls (draining batch) k =
    let (g, l, e, f) = k.at in
    record { firm = k.firm; all = k.all; at = ((g.holds, batch, e), tt); known = k.known }
close_down-IsKept c total wal m calls idle k = k
close_down-IsKept c total wal m calls (gathering batch) k = k
close_down-IsKept c total wal m calls ended k = k
close_down-IsKept c total wal m calls crashed k = k

pub finish-IsKept :
    (c : Codec) (sys : ℕ → Io) (total firm all batch : List LogRecord) (t : Writer)
    → IsWriting c total firm all batch t.wal t.mark
    → durable_of t.mark ≡ last_seq none firm
    → IsKept c total (finish c sys batch t)
unfolding finish
finish-IsKept c sys total firm all [] t at known =
    close_down-IsKept c total t.wal t.mark t.calls (draining [])
      (record { firm = firm; all = all; at = at; known = known })
finish-IsKept c sys total firm all (r ∷ rs) t at known =
    let u : Writer = write_batch c sys (r ∷ rs) (draining []) t in
    close_down-IsKept c total u.wal u.mark u.calls u.phase
      (write_batch-IsKept c sys total firm all (r ∷ rs) (draining []) t tt at known)
