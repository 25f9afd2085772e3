-- ===== src/Wal/Commit/Runs.antt =====
-- crates/auction-wal/src/commit.rs: the writer thread over its receives.
use mathlib.Core.List.{append_assoc, append-nil}
use dutch_auction.Base.{ℕ, ◌≡◌, refl, sym, ◌∙◌, ap, subst, List, [], ◌∷◌, ◌++◌, none, if_cases}
use dutch_auction.Wal.Record.{LogRecord, Codec}
use dutch_auction.Wal.Log.{Wal, Io}
use dutch_auction.Wal.Directory.{last_seq}
use dutch_auction.Wal.Log.Durable.{IsLog}
use dutch_auction.Wal.Commit.{
  Mark, durable_of, submitted, stop, Poll, got, disconnected, empty, Phase, idle, gathering,
  draining, ended, crashed, Writer, on_recv, on_try_recv, on_try_iter, on_poll, run_writer, spawn,
}
use dutch_auction.Wal.Commit.Kept.{
  IsWriting, IsOver, IsAt, IsKept, write_batch-IsKept, gather-IsKept, finish-IsKept,
}

-- The record that a receive gives.
abbrev pub given : Poll → List LogRecord
given (got (submitted r)) = r ∷ []
given (got stop) = []
given disconnected = []
given (empty late) = []

abbrev pub all_given : List Poll → List LogRecord
all_given [] = []
all_given (poll ∷ polls) = given poll ++ all_given polls

module _ (c : Codec) (sys : ℕ → Io) (total firm all : List LogRecord) (t : Writer) where
  -- One more record in the batch.
  pub one_more :
      (batch : List LogRecord) (r : LogRecord)
      → IsWriting c total firm all batch t.wal t.mark
      → IsWriting c (total ++ r ∷ []) firm all (batch ++ r ∷ []) t.wal t.mark
  one_more batch r (g, l, e, f) =
      (g, l, sym (append_assoc all batch (r ∷ [])) ∙ ap (λ k. k ++ r ∷ []) e, f)

  pub same_total :
      (batch : List LogRecord)
      → IsWriting c total firm all batch t.wal t.mark
      → IsWriting c (total ++ []) firm all batch t.wal t.mark
  same_total batch (g, l, e, f) = (g, l, e ∙ sym (append-nil total), f)

  on_recv-IsKept :
      (poll : Poll)
      → IsWriting c total firm all [] t.wal t.mark
      → durable_of t.mark ≡ last_seq none firm
      → t.phase ≡ idle
      → IsKept c (total ++ given poll) (on_recv c sys t poll)
  unfolding on_recv
  on_recv-IsKept (got (submitted r)) at known p =
      gather-IsKept c sys (total ++ r ∷ []) firm all (r ∷ []) t (one_more [] r at) known
  on_recv-IsKept (got stop) at known p = record {
    firm = firm;
    all = all;
    at = same_total [] at;
    known = known;
  }
  on_recv-IsKept disconnected at known p = record {
    firm = firm;
    all = all;
    at = same_total [] at;
    known = known;
  }
  on_recv-IsKept (empty late) at known p = record {
    firm = firm;
    all = all;
    at = subst (IsAt c (total ++ []) firm all t.wal t.mark) (sym p) (same_total [] at);
    known = known;
  }

  on_try_recv-IsKept :
      (batch : List LogRecord) (poll : Poll)
      → IsWriting c total firm all batch t.wal t.mark
      → durable_of t.mark ≡ last_seq none firm
      → t.phase ≡ gathering batch
      → IsKept c (total ++ given poll) (on_try_recv c sys batch t poll)
  unfolding on_try_recv
  on_try_recv-IsKept batch (got (submitted r)) at known p =
      gather-IsKept c sys (total ++ r ∷ []) firm all (batch ++ r ∷ []) t (one_more batch r at) known
  on_try_recv-IsKept batch (got stop) at known p =
      write_batch-IsKept c sys (total ++ []) firm all batch (draining []) t tt (same_total batch at)
        known
  on_try_recv-IsKept batch disconnected at known p =
      write_batch-IsKept c sys (total ++ []) firm all batch idle t tt (same_total batch at) known
  on_try_recv-IsKept batch (empty late) at known p =
      if_cases (IsKept c (total ++ [])) late _ _
        (λ _.
          write_batch-IsKept c sys (total ++ []) firm all batch idle t tt (same_total batch at)
            known)
        (λ _. record {
          firm = firm;
          all = all;
          at = subst (IsAt c (total ++ []) firm all t.wal t.mark) (sym p) (same_total batch at);
          known = known;
        })

  on_try_iter-IsKept :
      (batch : List LogRecord) (poll : Poll)
      → IsWriting c total firm all batch t.wal t.mark
      → durable_of t.mark ≡ last_seq none firm
      → t.phase ≡ draining batch
      → IsKept c (total ++ given poll) (on_try_iter c sys batch t poll)
  unfolding on_try_iter
  on_try_iter-IsKept batch (got (submitted r)) at known p = record {
    firm = firm;
    all = all;
    at = one_more batch r at;
    known = known;
  }
  on_try_iter-IsKept batch (got stop) at known p = record {
    firm = firm;
    all = all;
    at = subst (IsAt c (total ++ []) firm all t.wal t.mark) (sym p) (same_total batch at);
    known = known;
  }
  on_try_iter-IsKept batch disconnected at known p =
      finish-IsKept c sys (total ++ []) firm all batch t (same_total batch at) known
  on_try_iter-IsKept batch (empty late) at known p =
      finish-IsKept c sys (total ++ []) firm all batch t (same_total batch at) known

nothing_added :
    (c : Codec) (total firm all more : List LogRecord) (w : Wal)
    → IsOver c total firm all w
    → IsOver c (total ++ more) firm all w
nothing_added c total firm all more w (h, later, e) =
    (h, later ++ more, sym (append_assoc all later more) ∙ ap (λ k. k ++ more) e)

pub on_poll-IsKept :
    (c : Codec) (sys : ℕ → Io) (total : List LogRecord) (wal : Wal) (m : Mark) (calls : ℕ)
    (phase : Phase) (poll : Poll)
    → IsKept c total (record { wal = wal; mark = m; calls = calls; phase = phase })
    → IsKept c
        (total ++ given poll)
        (on_poll c sys (record { wal = wal; mark = m; calls = calls; phase = phase }) poll)
unfolding on_poll
on_poll-IsKept c sys total wal m calls idle poll k =
    on_recv-IsKept c sys total k.firm k.all
      (record { wal = wal; mark = m; calls = calls; phase = idle }) poll k.at k.known refl
on_poll-IsKept c sys total wal m calls (gathering batch) poll k =
    on_try_recv-IsKept c sys total k.firm k.all
      (record { wal = wal; mark = m; calls = calls; phase = gathering batch }) batch poll k.at
      k.known refl
on_poll-IsKept c sys total wal m calls (draining batch) poll k =
    on_try_iter-IsKept c sys total k.firm k.all
      (record { wal = wal; mark = m; calls = calls; phase = draining batch }) batch poll k.at
      k.known refl
on_poll-IsKept c sys total wal m calls ended poll k = record {
  firm = k.firm;
  all = k.all;
  at = (nothing_added c total k.firm k.all (given poll) wal k.at.0, k.at.1);
  known = k.known;
}
on_poll-IsKept c sys total wal m calls crashed poll k = record {
  firm = k.firm;
  all = k.all;
  at = nothing_added c total k.firm k.all (given poll) wal k.at;
  known = k.known;
}

pub run_writer-IsKept :
    (c : Codec) (sys : ℕ → Io) (total : List LogRecord) (t : Writer) (polls : List Poll)
    → IsKept c total t
    → IsKept c (total ++ all_given polls) (run_writer c sys t polls)
unfolding run_writer
run_writer-IsKept c sys total t [] k = subst (λ l. IsKept c l t) (sym (append-nil total)) k
run_writer-IsKept c sys total t (poll ∷ polls) k =
    subst (λ l. IsKept c l (run_writer c sys (on_poll c sys t poll) polls))
      (append_assoc total (given poll) (all_given polls))
      (run_writer-IsKept c sys (total ++ given poll) (on_poll c sys t poll) polls
        (on_poll-IsKept c sys total t.wal t.mark t.calls t.phase poll k))

-- The writer at its start, on a log whose records are all on the medium.
pub spawn-IsKept :
    (c : Codec) (all : List LogRecord) (w : Wal) → IsLog c all all w → IsKept c all (spawn w)
unfolding spawn durable_of
spawn-IsKept c all w g = record {
  firm = all;
  all = all;
  at = (g, tt, append-nil all, refl);
  known = g.holds.last_firm;
}
