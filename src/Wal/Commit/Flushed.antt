-- ===== src/Wal/Commit/Flushed.antt =====
-- crates/auction-wal/src/commit.rs: on a file system that does what it is asked, a writer that is
-- stopped has written everything.
use mathlib.Core.List.{append_assoc, append-nil}
use dutch_auction.Base.{
  ℕ, ◌≡◌, refl, sym, ◌∙◌, ap, subst, List, [], ◌∷◌, ◌++◌, map, none, Bool, length, ltb, if_cases,
  All, All-front, All-back,
}
use dutch_auction.Wal.Record.{LogRecord, Codec}
use dutch_auction.Wal.Log.{Wal, healthy}
use dutch_auction.Wal.Directory.{last_seq}
use dutch_auction.Wal.Log.Reads.{IsRun, IsRun-front, IsRun-back}
use dutch_auction.Wal.Log.Durable.{IsLog}
use dutch_auction.Wal.Commit.{
  shut_down, Mark, closed, durable_of, close, submitted, stop, Poll, got, disconnected, empty,
  Phase, idle, gathering, draining, ended, crashed, Writer, write_batch, gather, close_down, finish,
  on_recv, on_try_recv, on_try_iter, on_poll, run_writer, spawn,
}
use dutch_auction.Wal.Commit.Kept.{IsWriting, IsKept, write_batch-IsKept}
use dutch_auction.Wal.Commit.Runs.{
  given, all_given, one_more, same_total, on_poll-IsKept, spawn-IsKept,
}
use dutch_auction.Wal.Commit.Healthy.{IsWritable, write_batch_well}

-- Records that can follow each other from the start of a log, and that can be encoded.
abbrev pub IsGood : Codec → List LogRecord → Type 0
IsGood c rs = IsRun none rs × All (IsWritable c) rs

IsGood-front : (c : Codec) (front back : List LogRecord) → IsGood c (front ++ back) → IsGood c front
IsGood-front c front back h =
    (IsRun-front none front back h.0, All-front (IsWritable c) front back h.1)

-- A record, or nothing yet.
abbrev pub IsOpen : Poll → Type 0
IsOpen (got (submitted r)) = Unit
IsOpen (got stop) = ⊥
IsOpen disconnected = ⊥
IsOpen (empty late) = Unit

abbrev pub IsRunning : Phase → Type 0
IsRunning idle = Unit
IsRunning (gathering batch) = Unit
IsRunning (draining batch) = ⊥
IsRunning ended = ⊥
IsRunning crashed = ⊥

module _ (c : Codec) (total firm all batch : List LogRecord) where
  good_batch :
      (next : Phase) (t : Writer)
      → IsWriting c total firm all batch t.wal t.mark
      → IsGood c total
      → (write_batch c (λ _. healthy) batch next t).phase ≡ next
  good_batch next t (g, l, e, f) good =
      let parts : IsGood c (all ++ batch) = subst (IsGood c) (sym e) good in
      write_batch_well c firm all batch next t g (IsRun-back none all batch parts.0)
        (All-back (IsWritable c) all batch parts.1)

  good_gather :
      (t : Writer)
      → IsWriting c total firm all batch t.wal t.mark
      → IsGood c total
      → IsRunning (gather c (λ _. healthy) batch t).phase
  unfolding gather
  good_gather t at good =
      if_cases (λ (u : Writer). IsRunning u.phase) (ltb (length batch) t.wal.options.max_batch) _ _
        (λ _. tt) (λ _. subst IsRunning (sym (good_batch idle t at good)) tt)

on_open :
    (c : Codec) (total : List LogRecord) (wal : Wal) (m : Mark) (calls : ℕ) (phase : Phase)
    (poll : Poll)
    → IsKept c total (record { wal = wal; mark = m; calls = calls; phase = phase })
    → IsRunning phase
    → IsOpen poll
    → IsGood c (total ++ given poll)
    → IsRunning
        (on_poll c
          (λ _. healthy)
          (record { wal = wal; mark = m; calls = calls; phase = phase })
          poll).phase
unfolding on_poll on_recv on_try_recv
on_open c total wal m calls idle (got (submitted r)) k run op good =
    let t : Writer = record { wal = wal; mark = m; calls = calls; phase = idle } in
    good_gather c (total ++ r ∷ []) k.firm k.all (r ∷ []) t
      (one_more c (λ _. healthy) total k.firm k.all t [] r k.at) good
on_open c total wal m calls idle (empty late) k run op good = tt
on_open c total wal m calls idle (got stop) k run op good = absurd op
on_open c total wal m calls idle disconnected k run op good = absurd op
on_open c total wal m calls (gathering batch) (got (submitted r)) k run op good =
    let t : Writer = record { wal = wal; mark = m; calls = calls; phase = gathering batch } in
    good_gather c (total ++ r ∷ []) k.firm k.all (batch ++ r ∷ []) t
      (one_more c (λ _. healthy) total k.firm k.all t batch r k.at) good
on_open c total wal m calls (gathering batch) (empty late) k run op good =
    let t : Writer = record { wal = wal; mark = m; calls = calls; phase = gathering batch } in
    if_cases (λ (u : Writer). IsRunning u.phase) late _ _
      (λ _.
        subst IsRunning
          (sym (
            good_batch c total k.firm k.all batch idle t k.at
              (subst (IsGood c) (append-nil total) good)))
          tt)
      (λ _. tt)
on_open c total wal m calls (gathering batch) (got stop) k run op good = absurd op
on_open c total wal m calls (gathering batch) disconnected k run op good = absurd op
on_open c total wal m calls (draining batch) poll k run op good = absurd run
on_open c total wal m calls ended poll k run op good = absurd run
on_open c total wal m calls crashed poll k run op good = absurd run

-- The writer is stopped after these receives.
is_draining_after_stop :
    (c : Codec) (total : List LogRecord) (wal : Wal) (m : Mark) (calls : ℕ) (phase : Phase)
    → IsKept c total (record { wal = wal; mark = m; calls = calls; phase = phase })
    → IsRunning phase
    → IsGood c total
    → (on_poll c
        (λ _. healthy)
        (record { wal = wal; mark = m; calls = calls; phase = phase })
        (got stop)).phase
      ≡ draining []
unfolding on_poll on_recv on_try_recv
is_draining_after_stop c total wal m calls idle k run good = refl
is_draining_after_stop c total wal m calls (gathering batch) k run good =
    good_batch c total k.firm k.all batch (draining [])
      (record { wal = wal; mark = m; calls = calls; phase = gathering batch }) k.at good
is_draining_after_stop c total wal m calls (draining batch) k run good = absurd run
is_draining_after_stop c total wal m calls ended k run good = absurd run
is_draining_after_stop c total wal m calls crashed k run good = absurd run

-- Everything is on the medium, and the watermark is closed at the last number.
pub record IsFlushed (c : Codec) (total : List LogRecord) (t : Writer) : Type 0 where
  pub finished : t.phase ≡ ended
  pub answer : t.mark ≡ closed (last_seq none total) shut_down
  pub written : IsLog c total total t.wal

closed_well :
    (c : Codec) (total : List LogRecord) (wal : Wal) (m : Mark) (calls : ℕ) (phase : Phase)
    → phase ≡ draining []
    → IsKept c total (record { wal = wal; mark = m; calls = calls; phase = phase })
    → IsFlushed c total (close_down (record { wal = wal; mark = m; calls = calls; phase = phase }))
unfolding close_down close
closed_well c total wal m calls (draining []) e k =
    let (g, l, parts, f) = k.at in
    let whole : k.all ≡ total = sym (append-nil k.all) ∙ parts in
    record {
      finished = refl;
      answer = ap (λ p. closed p shut_down) (k.known ∙ ap (last_seq none) (f ∙ whole));
      written = subst (λ l. IsLog c l l wal) whole (subst (λ l. IsLog c l k.all wal) f g);
    }
closed_well c total wal m calls (draining (r ∷ rs)) e k = absurd (apart e)
  where
    apart : ¬ (draining (r ∷ rs) ≡ draining [])
    apart q = cc
closed_well c total wal m calls idle e k = cc
closed_well c total wal m calls (gathering batch) e k = cc
closed_well c total wal m calls ended e k = cc
closed_well c total wal m calls crashed e k = cc

finish_well :
    (c : Codec) (total firm all batch : List LogRecord) (t : Writer)
    → IsWriting c total firm all batch t.wal t.mark
    → durable_of t.mark ≡ last_seq none firm
    → IsGood c total
    → IsFlushed c total (finish c (λ _. healthy) batch t)
unfolding finish
finish_well c total firm all [] t at known good =
    closed_well c total t.wal t.mark t.calls (draining []) refl
      (record { firm = firm; all = all; at = at; known = known })
finish_well c total firm all (r ∷ rs) t at known good =
    let u : Writer = write_batch c (λ _. healthy) (r ∷ rs) (draining []) t in
    closed_well c total u.wal u.mark u.calls u.phase
      (good_batch c total firm all (r ∷ rs) (draining []) t at good)
      (write_batch-IsKept c (λ _. healthy) total firm all (r ∷ rs) (draining []) t tt at known)

-- The receives of a stop: the stop, the records behind it, and the end of the queue.
abbrev pub queued : List LogRecord → Bool → List Poll
queued rs late = map (λ r. got (submitted r)) rs ++ empty late ∷ []

drained_well :
    (c : Codec) (total : List LogRecord) (wal : Wal) (m : Mark) (calls : ℕ)
    (batch rs : List LogRecord) (late : Bool)
    → IsKept c total (record { wal = wal; mark = m; calls = calls; phase = draining batch })
    → IsGood c (total ++ rs)
    → IsFlushed c (total ++ rs) (
        run_writer c
          (λ _. healthy)
          (record { wal = wal; mark = m; calls = calls; phase = draining batch })
          (queued rs late))
unfolding run_writer on_poll on_try_iter
drained_well c total wal m calls batch [] late k good =
    let t : Writer = record { wal = wal; mark = m; calls = calls; phase = draining batch } in
    finish_well c (total ++ []) k.firm k.all batch t
      (same_total c (λ _. healthy) total k.firm k.all t batch k.at) k.known good
drained_well c total wal m calls batch (r ∷ rs) late k good =
    let t : Writer = record { wal = wal; mark = m; calls = calls; phase = draining batch } in
    let next : Writer = record t { phase = draining (batch ++ r ∷ []) } in
    subst (λ l. IsFlushed c l (run_writer c (λ _. healthy) next (queued rs late)))
      (append_assoc total (r ∷ []) rs)
      (drained_well c (total ++ r ∷ []) wal m calls (batch ++ r ∷ []) rs late
        (record {
          firm = k.firm;
          all = k.all;
          at = one_more c (λ _. healthy) total k.firm k.all t batch r k.at;
          known = k.known;
        })
        (subst (IsGood c) (sym (append_assoc total (r ∷ []) rs)) good))

stopped_well :
    (c : Codec) (total : List LogRecord) (t : Writer) (rs : List LogRecord) (late : Bool)
    → t.phase ≡ draining []
    → IsKept c total t
    → IsGood c (total ++ rs)
    → IsFlushed c (total ++ rs) (run_writer c (λ _. healthy) t (queued rs late))
stopped_well c total t rs late e =
    subst
      (λ (u : Writer).
        IsKept c total u
        → IsGood c (total ++ rs)
        → IsFlushed c (total ++ rs) (run_writer c (λ _. healthy) u (queued rs late)))
      (ap (λ p. record t { phase = p }) (sym e))
      (drained_well c total t.wal t.mark t.calls [] rs late)

open_then_stop :
    (c : Codec) (total : List LogRecord) (t : Writer) (polls : List Poll) (rs : List LogRecord)
    (late : Bool)
    → IsKept c total t
    → IsRunning t.phase
    → All IsOpen polls
    → IsGood c (total ++ (all_given polls ++ rs))
    → IsFlushed c
        (total ++ (all_given polls ++ rs))
        (run_writer c (λ _. healthy) t (polls ++ got stop ∷ queued rs late))
unfolding run_writer
open_then_stop c total t [] rs late k run op good =
    let t1 : Writer = on_poll c (λ _. healthy) t (got stop) in
    let k1 : IsKept c total t1 =
      subst (λ l. IsKept c l t1) (append-nil total)
        (on_poll-IsKept c (λ _. healthy) total t.wal t.mark t.calls t.phase (got stop) k) in
    stopped_well c total t1 rs late
      (is_draining_after_stop c total t.wal t.mark t.calls t.phase k run
        (IsGood-front c total rs good))
      k1 good
open_then_stop c total t (poll ∷ polls) rs late k run op good =
    let t1 : Writer = on_poll c (λ _. healthy) t poll in
    let rest : List LogRecord = all_given polls ++ rs in
    let line : total ++ given poll ++ rest ≡ total ++ (all_given (poll ∷ polls) ++ rs) =
      append_assoc total (given poll) rest
      ∙ ap (λ l. total ++ l) (sym (append_assoc (given poll) (all_given polls) rs)) in
    let good1 : IsGood c (total ++ given poll ++ rest) = subst (IsGood c) (sym line) good in
    subst (λ l. IsFlushed c l (run_writer c (λ _. healthy) t1 (polls ++ got stop ∷ queued rs late)))
      line
      (open_then_stop c (total ++ given poll) t1 polls rs late
        (on_poll-IsKept c (λ _. healthy) total t.wal t.mark t.calls t.phase poll k)
        (on_open c total t.wal t.mark t.calls t.phase poll k run op.0
          (IsGood-front c (total ++ given poll) rest good1))
        op.1 good1)

-- For a writer on a log whose records are all on the medium, and a file system that does whatever it
-- is asked: if the records of the log and those submitted, before the stop and behind it, are numbered
-- one after the other and can be encoded, then a stop ends the writer with all of them on the medium,
-- and with the watermark closed at the number of the last one.
pub stop_flushes :
    (c : Codec) (all : List LogRecord) (w : Wal) (polls : List Poll) (rs : List LogRecord)
    (late : Bool)
    → IsLog c all all w
    → All IsOpen polls
    → IsRun none (all ++ (all_given polls ++ rs))
    → All (IsWritable c) (all ++ (all_given polls ++ rs))
    → IsFlushed c
        (all ++ (all_given polls ++ rs))
        (run_writer c (λ _. healthy) (spawn w) (polls ++ got stop ∷ queued rs late))
unfolding spawn
stop_flushes c all w polls rs late g op run ok =
    open_then_stop c all (spawn w) polls rs late (spawn-IsKept c all w g) tt op (run, ok)
