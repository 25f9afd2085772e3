-- ===== src/Wal/Commit.antt =====
-- crates/auction-wal/src/commit.rs: the durability watermark and the writer thread. What the channel
-- (crossbeam) gives to each receive is an argument, and so is what the file system answers; a waiter
-- on the condition variable looks at the watermark again after every change.
pub mod Kept
pub mod Runs
pub mod Promises
pub mod Rising
pub mod Ends
pub mod Healthy
pub mod Flushed
use dutch_auction.Base.{
  ℕ, suc, ◌+◌, List, [], ◌∷◌, ◌++◌, Option, none, some, Bool, true, false, length, leb, ltb,
  if◌then◌else◌,
}
use dutch_auction.Proto.Ids.{Seq}
use dutch_auction.Wal.Record.{LogRecord, Codec}
use dutch_auction.Wal.Log.{
  WalError, committer_stopped, Wal, Io, Step, done, failed, panicked, append, sync,
}

-- why the writer stopped
pub data Reason : Type 0 where
  write_failure : WalError → Reason
  shut_down : Reason

-- `State`
pub data Mark : Type 0 where
  live : Option Seq → Mark
  closed : Option Seq → Reason → Mark

-- The derived order of optional numbers: `None` comes first.
unfoldable pub leb_option : Option Seq → Option Seq → Bool
leb_option none b = true
leb_option (some a) none = false
leb_option (some a) (some b) = leb a b

-- `Watermark::publish`
unfoldable pub publish : Option Seq → Mark → Mark
unfolding leb_option
publish seq (live durable) = if leb_option seq durable then live durable else live seq
publish seq (closed durable reason) = closed durable reason

-- `Watermark::durable`
unfoldable pub durable_of : Mark → Option Seq
durable_of (live durable) = durable
durable_of (closed durable reason) = durable

-- `Watermark::close`
unfoldable pub close : Reason → Mark → Mark
unfolding durable_of
close reason m = closed (durable_of m) reason

-- One look of `wait_for` at the watermark: it returns, or it waits for a change.
pub data Look : Type 0 where
  released : Look
  waits : Look
  refused : Reason → Look

unfoldable pub wait_for : Seq → Mark → Look
unfolding leb_option
wait_for target (live none) = waits
wait_for target (live (some durable)) = if leb target durable then released else waits
wait_for target (closed durable reason) =
    if leb_option (some target) durable then released else refused reason

pub data Msg : Type 0 where
  submitted : LogRecord → Msg
  stop : Msg

-- What a receive finds: a message, no sender left, or nothing yet, with whether the deadline of the
-- batch has passed then. (`recv` blocks, so it does not find nothing.)
pub data Poll : Type 0 where
  got : Msg → Poll
  disconnected : Poll
  empty : Bool → Poll

-- Where the writer is: before `recv`, gathering a batch, collecting what is left, or at its end.
pub data Phase : Type 0 where
  idle : Phase
  gathering : List LogRecord → Phase
  draining : List LogRecord → Phase
  ended : Phase
  crashed : Phase

-- `calls` counts the calls of the file system.
pub record Writer : Type 0 where
  pub wal : Wal
  pub mark : Mark
  pub calls : ℕ
  pub phase : Phase

-- `for record in batch`
unfoldable pub append_all : Codec → (ℕ → Io) → ℕ → Wal → List LogRecord → Step
unfolding append
append_all c sys n w [] = done w
append_all c sys n w (r ∷ rs) = elim (append c (sys n) w r) [
  | done w' ↦ append_all c sys (suc n) w' rs
  | failed e w' ↦ failed e w'
  | panicked w' ↦ panicked w'
]

unfoldable pub sync_after : Io → Step → Step
unfolding sync
sync_after sys (done w) = sync sys w
sync_after sys (failed e w) = failed e w
sync_after sys (panicked w) = panicked w

-- the end of a batch: `publish` after the sync, or the thread closes the watermark and returns
unfoldable pub publish_after : ℕ → Phase → Mark → Step → Writer
unfolding publish close
publish_after calls next mark (done w) = record {
  wal = w;
  mark = publish w.durable mark;
  calls = calls;
  phase = next;
}
publish_after calls next mark (failed e w) = record {
  wal = w;
  mark = close (write_failure e) mark;
  calls = calls;
  phase = ended;
}
publish_after calls next mark (panicked w) = record {
  wal = w;
  mark = mark;
  calls = calls;
  phase = crashed;
}

-- `write_batch`, with what `run` does on its result; then the writer is at `next`
unfoldable pub write_batch : Codec → (ℕ → Io) → List LogRecord → Phase → Writer → Writer
unfolding append_all sync_after publish_after
write_batch c sys batch next t =
    let last : ℕ = t.calls + length batch in
    publish_after (suc last) next t.mark
      (sync_after (sys last) (append_all c sys t.calls t.wal batch))

-- `while batch.len() < options.max_batch`
unfoldable pub gather : Codec → (ℕ → Io) → List LogRecord → Writer → Writer
unfolding write_batch
gather c sys batch t =
    if ltb (length batch) t.wal.options.max_batch
    then record t { phase = gathering batch }
    else write_batch c sys batch idle t

-- the end of `run`, after the leftovers are written
unfoldable pub close_down : Writer → Writer
unfolding close
close_down t = elim t.phase [
  | draining _ ↦ record t { mark = close shut_down t.mark; phase = ended }
  | _ ↦ t
]

unfoldable pub finish : Codec → (ℕ → Io) → List LogRecord → Writer → Writer
unfolding write_batch close_down
finish c sys [] t = close_down (record t { phase = draining [] })
finish c sys (r ∷ rs) t = close_down (write_batch c sys (r ∷ rs) (draining []) t)

-- `rx.recv()`
unfoldable pub on_recv : Codec → (ℕ → Io) → Writer → Poll → Writer
unfolding gather
on_recv c sys t (got (submitted r)) = gather c sys (r ∷ []) t
on_recv c sys t (got stop) = record t { phase = draining [] }
on_recv c sys t disconnected = record t { phase = draining [] }
on_recv c sys t (empty late) = t

-- `rx.try_recv()`, with a batch begun
unfoldable pub on_try_recv : Codec → (ℕ → Io) → List LogRecord → Writer → Poll → Writer
unfolding gather write_batch
on_try_recv c sys batch t (got (submitted r)) = gather c sys (batch ++ r ∷ []) t
on_try_recv c sys batch t (got stop) = write_batch c sys batch (draining []) t
on_try_recv c sys batch t disconnected = write_batch c sys batch idle t
on_try_recv c sys batch t (empty late) = if late then write_batch c sys batch idle t else t

-- `rx.try_iter()`, with what is collected
unfoldable pub on_try_iter : Codec → (ℕ → Io) → List LogRecord → Writer → Poll → Writer
unfolding finish
on_try_iter c sys leftovers t (got (submitted r)) = record t {
  phase = draining (leftovers ++ r ∷ []);
}
on_try_iter c sys leftovers t (got stop) = t
on_try_iter c sys leftovers t disconnected = finish c sys leftovers t
on_try_iter c sys leftovers t (empty late) = finish c sys leftovers t

-- one receive of `run`
unfoldable pub on_poll : Codec → (ℕ → Io) → Writer → Poll → Writer
unfolding on_recv on_try_recv on_try_iter
on_poll c sys t poll = elim t.phase [
  | idle ↦ on_recv c sys t poll
  | gathering batch ↦ on_try_recv c sys batch t poll
  | draining leftovers ↦ on_try_iter c sys leftovers t poll
  | ended ↦ t
  | crashed ↦ t
]

-- `run`, over what its receives find
unfoldable pub run_writer : Codec → (ℕ → Io) → Writer → List Poll → Writer
unfolding on_poll
run_writer c sys t [] = t
run_writer c sys t (poll ∷ polls) = run_writer c sys (on_poll c sys t poll) polls

-- `CommitThread::spawn`
unfoldable pub spawn : Wal → Writer
spawn wal = record { wal = wal; mark = live wal.durable; calls = 0; phase = idle }

-- What `submit` gives back, by whether the channel took the message.
unfoldable pub submit : Bool → Option WalError
submit taken = if taken then none else some committer_stopped
