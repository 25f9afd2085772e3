-- ===== src/Wal/Commit/Ends.antt =====
-- crates/auction-wal/src/commit.rs: the end of the writer.
use dutch_auction.Base.{
  ℕ, ◌+◌, ◌≡◌, ◌≢◌, ◌⊎◌, inl, inr, refl, List, [], ◌∷◌, ◌++◌, map, some, Bool, length, if_cases,
}
use dutch_auction.Proto.Ids.{Seq}
use dutch_auction.Wal.Record.{LogRecord, Codec}
use dutch_auction.Wal.Log.{Wal, Io, Step, done, failed, panicked}
use dutch_auction.Wal.Log.Durable.{IsLog}
use dutch_auction.Wal.Commit.{
  Mark, live, closed, leb_option, wait_for, released, waits, refused, Msg, submitted, stop, Poll,
  got, empty, Phase, idle, gathering, draining, ended, crashed, Writer, append_all, sync_after,
  publish_after, write_batch, close_down, finish, on_recv, on_try_recv, on_try_iter, on_poll,
  run_writer, spawn,
}
use dutch_auction.Wal.Commit.Kept.{IsAt, IsClosed}
use dutch_auction.Wal.Commit.Runs.{all_given, run_writer-IsKept, spawn-IsKept}

-- The phases after a stop.
abbrev pub IsStopping : Phase → Type 0
IsStopping idle = ⊥
IsStopping (gathering batch) = ⊥
IsStopping (draining batch) = Unit
IsStopping ended = Unit
IsStopping crashed = Unit

abbrev pub IsDone : Phase → Type 0
IsDone idle = ⊥
IsDone (gathering batch) = ⊥
IsDone (draining batch) = ⊥
IsDone ended = Unit
IsDone crashed = Unit

module _ (c : Codec) (sys : ℕ → Io) where
  batch_then_drain :
      (calls : ℕ) (m : Mark) (s : Step) → IsStopping (publish_after calls (draining []) m s).phase
  unfolding publish_after
  batch_then_drain calls m (done w) = tt
  batch_then_drain calls m (failed e w) = tt
  batch_then_drain calls m (panicked w) = tt

  write_then_drain :
      (batch : List LogRecord) (t : Writer)
      → IsStopping (write_batch c sys batch (draining []) t).phase
  unfolding write_batch
  write_then_drain batch t =
      batch_then_drain _ t.mark
        (sync_after (sys (t.calls + length batch)) (append_all c sys t.calls t.wal batch))

  close_finally :
      (wal : Wal) (m : Mark) (calls : ℕ) (phase : Phase)
      → IsStopping phase
      → IsDone (close_down (record { wal = wal; mark = m; calls = calls; phase = phase })).phase
  unfolding close_down
  close_finally wal m calls (draining batch) h = tt
  close_finally wal m calls ended h = tt
  close_finally wal m calls crashed h = tt
  close_finally wal m calls idle h = h
  close_finally wal m calls (gathering batch) h = h

  finish_finally : (batch : List LogRecord) (t : Writer) → IsDone (finish c sys batch t).phase
  unfolding finish
  finish_finally [] t = close_finally t.wal t.mark t.calls (draining []) tt
  finish_finally (r ∷ rs) t =
      let u : Writer = write_batch c sys (r ∷ rs) (draining []) t in
      close_finally u.wal u.mark u.calls u.phase (write_then_drain (r ∷ rs) t)

  on_stop :
      (wal : Wal) (m : Mark) (calls : ℕ) (phase : Phase)
      → IsStopping
          (on_poll c sys
            (record { wal = wal; mark = m; calls = calls; phase = phase })
            (got stop)).phase
  unfolding on_poll on_recv on_try_recv on_try_iter
  on_stop wal m calls idle = tt
  on_stop wal m calls (gathering batch) =
      write_then_drain batch
        (record { wal = wal; mark = m; calls = calls; phase = gathering batch })
  on_stop wal m calls (draining batch) = tt
  on_stop wal m calls ended = tt
  on_stop wal m calls crashed = tt

  on_message :
      (wal : Wal) (m : Mark) (calls : ℕ) (phase : Phase) (msg : Msg)
      → IsStopping phase
      → IsStopping
          (on_poll c sys
            (record { wal = wal; mark = m; calls = calls; phase = phase })
            (got msg)).phase
  unfolding on_poll on_try_iter
  on_message wal m calls (draining batch) (submitted r) h = tt
  on_message wal m calls (draining batch) stop h = tt
  on_message wal m calls ended msg h = tt
  on_message wal m calls crashed msg h = tt
  on_message wal m calls idle msg h = absurd h
  on_message wal m calls (gathering batch) msg h = absurd h

  on_empty :
      (wal : Wal) (m : Mark) (calls : ℕ) (phase : Phase) (late : Bool)
      → IsStopping phase
      → IsDone
          (on_poll c sys
            (record { wal = wal; mark = m; calls = calls; phase = phase })
            (empty late)).phase
  unfolding on_poll on_try_iter
  on_empty wal m calls (draining batch) late h =
      finish_finally batch (record { wal = wal; mark = m; calls = calls; phase = draining batch })
  on_empty wal m calls ended late h = tt
  on_empty wal m calls crashed late h = tt
  on_empty wal m calls idle late h = absurd h
  on_empty wal m calls (gathering batch) late h = absurd h

  drained :
      (t : Writer) (msgs : List Msg) (late : Bool)
      → IsStopping t.phase
      → IsDone (run_writer c sys t (map got msgs ++ empty late ∷ [])).phase
  unfolding run_writer
  drained t [] late h = on_empty t.wal t.mark t.calls t.phase late h
  drained t (msg ∷ msgs) late h =
      drained (on_poll c sys t (got msg)) msgs late (on_message t.wal t.mark t.calls t.phase msg h)

  stop_drains :
      (t : Writer) (polls : List Poll) (msgs : List Msg) (late : Bool)
      → IsDone (run_writer c sys t (polls ++ got stop ∷ (map got msgs ++ empty late ∷ []))).phase
  unfolding run_writer
  stop_drains t [] msgs late =
      drained (on_poll c sys t (got stop)) msgs late (on_stop t.wal t.mark t.calls t.phase)
  stop_drains t (poll ∷ polls) msgs late = stop_drains (on_poll c sys t poll) polls msgs late

-- Nobody waits for a closed watermark.
closed_answers : (target : Seq) (m : Mark) → IsClosed m → wait_for target m ≢ waits
unfolding wait_for
closed_answers target (live d) h = absurd h
closed_answers target (closed d reason) h =
    if_cases (λ l. l ≢ waits) (leb_option (some target) d) released (refused reason) (λ _ e. cc)
      (λ _ e. cc)

answered :
    (c : Codec) (total firm all : List LogRecord) (w : Wal) (m : Mark) (phase : Phase)
    (target : Seq)
    → IsDone phase
    → IsAt c total firm all w m phase
    → (phase ≡ crashed) ⊎ ((phase ≡ ended) × (wait_for target m ≢ waits))
answered c total firm all w m ended target h k = inr (refl, closed_answers target m k.1)
answered c total firm all w m crashed target h k = inl refl
answered c total firm all w m idle target h k = absurd h
answered c total firm all w m (gathering batch) target h k = absurd h
answered c total firm all w m (draining batch) target h k = absurd h

-- For a writer on a log whose records are all on the medium, whatever came before and whatever the
-- file system answers: once a stop is received, and the messages queued behind it until the channel
-- is empty, the writer has ended, and then every wait returns, with success or an error; the one
-- exception is a writer that panicked.
pub stop_ends :
    (c : Codec) (sys : ℕ → Io) (all : List LogRecord) (w : Wal) (polls : List Poll)
    (msgs : List Msg) (late : Bool) (target : Seq)
    → IsLog c all all w
    → ((run_writer c sys (spawn w) (polls ++ got stop ∷ (map got msgs ++ empty late ∷ []))).phase
        ≡ crashed)
      ⊎ (((run_writer c sys (spawn w) (polls ++ got stop ∷ (map got msgs ++ empty late ∷ []))).phase
            ≡ ended)
          × (wait_for target
                (run_writer c sys
                  (spawn w)
                  (polls ++ got stop ∷ (map got msgs ++ empty late ∷ []))).mark
              ≢ waits))
stop_ends c sys all w polls msgs late target g =
    let script : List Poll = polls ++ got stop ∷ (map got msgs ++ empty late ∷ []) in
    let t : Writer = run_writer c sys (spawn w) script in
    let k = run_writer-IsKept c sys all (spawn w) script (spawn-IsKept c all w g) in
    answered c (all ++ all_given script) k.firm k.all t.wal t.mark t.phase target
      (stop_drains c sys (spawn w) polls msgs late) k.at
