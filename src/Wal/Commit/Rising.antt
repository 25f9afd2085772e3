-- ===== src/Wal/Commit/Rising.antt =====
-- crates/auction-wal/src/commit.rs: the watermark over the receives of the writer.
use dutch_auction.Base.{
  ℕ, ◌+◌, ◌≡◌, refl, arith, List, [], ◌∷◌, ◌++◌, Option, none, some, true, false, length, ltb,
  if_cases,
}
use dutch_auction.Proto.Ids.{Seq}
use dutch_auction.Wal.Record.{LogRecord, Codec}
use dutch_auction.Wal.Log.{Wal, Io, Step, done, failed, panicked}
use dutch_auction.Wal.Commit.{
  Reason, shut_down, Mark, live, closed, leb_option, publish, durable_of, close, wait_for, released,
  submitted, stop, Poll, got, disconnected, empty, Phase, idle, gathering, draining, ended, crashed,
  Writer, append_all, sync_after, publish_after, write_batch, gather, close_down, finish, on_recv,
  on_try_recv, on_try_iter, on_poll, run_writer,
}
use dutch_auction.Wal.Commit.Kept.{leb_option_trans}
use dutch_auction.Wal.Commit.Promises.{released_below, released_above}

-- What `publish` and `close` keep of the watermark, the writer keeps.
module _ (P : Mark → Type 0) (published : (seq : Option Seq) (m : Mark) → P m → P (publish seq m))
    (stopped : (reason : Reason) (m : Mark) → P m → P (close reason m)) (c : Codec)
    (sys : ℕ → Io) where
  after_batch :
      (calls : ℕ) (next : Phase) (m : Mark) (s : Step) → P m → P (publish_after calls next m s).mark
  unfolding publish_after
  after_batch calls next m (done w) h = published w.durable m h
  after_batch calls next m (failed e w) h = stopped _ m h
  after_batch calls next m (panicked w) h = h

  after_write :
      (batch : List LogRecord) (next : Phase) (t : Writer)
      → P t.mark
      → P (write_batch c sys batch next t).mark
  unfolding write_batch
  after_write batch next t h =
      after_batch _ next t.mark
        (sync_after (sys (t.calls + length batch)) (append_all c sys t.calls t.wal batch)) h

  after_gather : (batch : List LogRecord) (t : Writer) → P t.mark → P (gather c sys batch t).mark
  unfolding gather
  after_gather batch t h =
      if_cases (λ (u : Writer). P u.mark) (ltb (length batch) t.wal.options.max_batch) _ _ (λ _. h)
        (λ _. after_write batch idle t h)

  after_close :
      (wal : Wal) (m : Mark) (calls : ℕ) (phase : Phase)
      → P m
      → P (close_down (record { wal = wal; mark = m; calls = calls; phase = phase })).mark
  unfolding close_down
  after_close wal m calls (draining batch) h = stopped shut_down m h
  after_close wal m calls idle h = h
  after_close wal m calls (gathering batch) h = h
  after_close wal m calls ended h = h
  after_close wal m calls crashed h = h

  after_finish : (batch : List LogRecord) (t : Writer) → P t.mark → P (finish c sys batch t).mark
  unfolding finish
  after_finish [] t h = after_close t.wal t.mark t.calls (draining []) h
  after_finish (r ∷ rs) t h =
      let u : Writer = write_batch c sys (r ∷ rs) (draining []) t in
      after_close u.wal u.mark u.calls u.phase (after_write (r ∷ rs) (draining []) t h)

  after_recv : (t : Writer) (poll : Poll) → P t.mark → P (on_recv c sys t poll).mark
  unfolding on_recv
  after_recv t (got (submitted r)) h = after_gather (r ∷ []) t h
  after_recv t (got stop) h = h
  after_recv t disconnected h = h
  after_recv t (empty late) h = h

  after_try_recv :
      (batch : List LogRecord) (t : Writer) (poll : Poll)
      → P t.mark
      → P (on_try_recv c sys batch t poll).mark
  unfolding on_try_recv
  after_try_recv batch t (got (submitted r)) h = after_gather (batch ++ r ∷ []) t h
  after_try_recv batch t (got stop) h = after_write batch (draining []) t h
  after_try_recv batch t disconnected h = after_write batch idle t h
  after_try_recv batch t (empty late) h =
      if_cases (λ (u : Writer). P u.mark) late _ _ (λ _. after_write batch idle t h) (λ _. h)

  after_try_iter :
      (batch : List LogRecord) (t : Writer) (poll : Poll)
      → P t.mark
      → P (on_try_iter c sys batch t poll).mark
  unfolding on_try_iter
  after_try_iter batch t (got (submitted r)) h = h
  after_try_iter batch t (got stop) h = h
  after_try_iter batch t disconnected h = after_finish batch t h
  after_try_iter batch t (empty late) h = after_finish batch t h

  after_poll :
      (wal : Wal) (m : Mark) (calls : ℕ) (phase : Phase) (poll : Poll)
      → P m
      → P (on_poll c sys (record { wal = wal; mark = m; calls = calls; phase = phase }) poll).mark
  unfolding on_poll
  after_poll wal m calls idle poll h =
      after_recv (record { wal = wal; mark = m; calls = calls; phase = idle }) poll h
  after_poll wal m calls (gathering batch) poll h =
      after_try_recv batch (record { wal = wal; mark = m; calls = calls; phase = gathering batch })
        poll h
  after_poll wal m calls (draining batch) poll h =
      after_try_iter batch (record { wal = wal; mark = m; calls = calls; phase = draining batch })
        poll h
  after_poll wal m calls ended poll h = h
  after_poll wal m calls crashed poll h = h

  after_run : (t : Writer) (polls : List Poll) → P t.mark → P (run_writer c sys t polls).mark
  unfolding run_writer
  after_run t [] h = h
  after_run t (poll ∷ polls) h =
      after_run (on_poll c sys t poll) polls (after_poll t.wal t.mark t.calls t.phase poll h)

leb_option_total : (a b : Option Seq) → leb_option a b ≡ false → leb_option b a ≡ true
unfolding leb_option
leb_option_total none b h = cc
leb_option_total (some x) none h = refl
leb_option_total (some x) (some y) h = ground arith

leb_option_refl : (a : Option Seq) → leb_option a a ≡ true
unfolding leb_option
leb_option_refl none = refl
leb_option_refl (some x) = ground arith

publish_keeps :
    (target seq : Option Seq) (m : Mark)
    → leb_option target (durable_of m) ≡ true
    → leb_option target (durable_of (publish seq m)) ≡ true
unfolding publish durable_of
publish_keeps target seq (live d) h =
    if_cases (λ m. leb_option target (durable_of m) ≡ true) (leb_option seq d) (live d) (live seq)
      (λ _. h) (λ ahead. leb_option_trans target d seq h (leb_option_total seq d ahead))
publish_keeps target seq (closed d reason) h = h

-- Whatever the channel and the file system answer: the watermark of the writer never falls, and a
-- number that a wait succeeded for stays one that every later wait succeeds for.
pub mark_never_falls :
    (c : Codec) (sys : ℕ → Io) (t : Writer) (polls : List Poll) (target : Seq)
    → wait_for target t.mark ≡ released
    → (leb_option (durable_of t.mark) (durable_of (run_writer c sys t polls).mark) ≡ true)
      × (wait_for target (run_writer c sys t polls).mark ≡ released)
unfolding close
mark_never_falls c sys t polls target ack = (
  after_run (λ m. leb_option (durable_of t.mark) (durable_of m) ≡ true)
      (publish_keeps (durable_of t.mark)) (λ reason m h. h) c sys t polls
      (leb_option_refl (durable_of t.mark)),
  released_above target (run_writer c sys t polls).mark (
      after_run (λ m. leb_option (some target) (durable_of m) ≡ true) (publish_keeps (some target))
        (λ reason m h. h) c sys t polls (released_below target t.mark ack)),
)
