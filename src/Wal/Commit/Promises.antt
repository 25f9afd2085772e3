-- ===== src/Wal/Commit/Promises.antt =====
-- crates/auction-wal/src/commit.rs: what a waiter may rely on.
use mathlib.Core.List.{append_assoc}
use dutch_auction.Base.{
  ℕ, ◌+◌, ◌<◌, ◌≡◌, ◌⊎◌, inl, inr, refl, sym, ◌∙◌, ap, subst, arith, List, [], ◌∷◌, ◌++◌, none,
  some, Bool, true, false, leb, if◌then◌else◌, Bool-cases, ◌==◌,
}
use dutch_auction.Proto.Ids.{Seq, next_seq}
use dutch_auction.Core.Config.{AuctionConfig}
use dutch_auction.Wal.Record.{LogRecord, Codec}
use dutch_auction.Wal.Record.Frame.{IsFaithful}
use dutch_auction.Wal.Log.{Wal, WalOptions, Io}
use dutch_auction.Wal.Directory.{
  Dir, records, read_all, opened, open_log, describes, eq_config, last_seq,
}
use dutch_auction.Wal.Log.Reads.{IsRun, IsRun-front}
use dutch_auction.Wal.Log.Durable.{IsLog}
use dutch_auction.Wal.Log.Crash.{IsLoss, open_log-Holds}
use dutch_auction.Wal.Commit.{
  Mark, live, closed, leb_option, durable_of, wait_for, Look, released, waits, refused, Poll, Phase,
  idle, gathering, draining, ended, crashed, Writer, run_writer, spawn,
}
use dutch_auction.Wal.Commit.Kept.{IsAt, IsKept, IsOver}
use dutch_auction.Wal.Commit.Runs.{all_given, run_writer-IsKept, spawn-IsKept}

-- One of the records has this number.
abbrev pub HasSeq : Seq → List LogRecord → Type 0
HasSeq target [] = ⊥
HasSeq target (r ∷ rs) = (r.seq ≡ target) ⊎ HasSeq target rs

-- The first of the records comes after this number.
abbrev pub StartsAfter : Seq → List LogRecord → Type 0
StartsAfter target [] = ⊥
StartsAfter target (r ∷ rs) = target < r.seq

HasSeq-append :
    (target : Seq) (front back : List LogRecord)
    → HasSeq target front
    → HasSeq target (front ++ back)
HasSeq-append target [] back h = absurd h
HasSeq-append target (r ∷ front) back (inl e) = inl e
HasSeq-append target (r ∷ front) back (inr h) = inr (HasSeq-append target front back h)

StartsAfter-append :
    (target : Seq) (front back : List LogRecord)
    → StartsAfter target front
    → StartsAfter target (front ++ back)
StartsAfter-append target [] back h = absurd h
StartsAfter-append target (r ∷ front) back h = h

next_up : (p s : Seq) → next_seq p ≡ some s → s ≡ p + 1
unfolding next_seq
next_up p s h = ground (arith, h)

run_reaches :
    (target p : Seq) (rs : List LogRecord)
    → IsRun (some p) rs
    → p < target
    → leb_option (some target) (last_seq (some p) rs) ≡ true
    → HasSeq target rs
unfolding leb_option last_seq
run_reaches target p [] run above h = absurd (ground arith)
run_reaches target p (r ∷ rs) run above h = elim (Bool-cases (r.seq == target)) [
  | inl here ↦ inl (ground arith)
  | inr past ↦
      let up = next_up p r.seq run.0 in inr (run_reaches target r.seq rs run.1 (ground arith) h)
]

-- A run up to a number has a record with that number, or starts after it.
run_covers :
    (target : Seq) (rs : List LogRecord)
    → IsRun none rs
    → leb_option (some target) (last_seq none rs) ≡ true
    → HasSeq target rs ⊎ StartsAfter target rs
unfolding leb_option last_seq
run_covers target [] run h = cc
run_covers target (r ∷ rs) run h = elim (Bool-cases (leb r.seq target)) [
  | inr before ↦ inr (ground arith)
  | inl reached ↦ elim (Bool-cases (r.seq == target)) [
    | inl here ↦ inl (inl (ground arith))
    | inr past ↦ inl (inr (run_reaches target r.seq rs run.1 (ground arith) h))
  ]
]

passed :
    (b : Bool) (other : Look)
    → (if b then released else other) ≡ released
    → ¬ (other ≡ released)
    → b ≡ true
passed true other e apart = refl
passed false other e apart = absurd (apart e)

pub released_above :
    (target : Seq) (m : Mark)
    → leb_option (some target) (durable_of m) ≡ true
    → wait_for target m ≡ released
unfolding wait_for durable_of leb_option
released_above target (live none) h = cc
released_above target (live (some d)) h = rw h refl
released_above target (closed d reason) h = rw h refl

pub released_below :
    (target : Seq) (m : Mark)
    → wait_for target m ≡ released
    → leb_option (some target) (durable_of m) ≡ true
unfolding wait_for durable_of leb_option
released_below target (live none) h = cc
released_below target (live (some d)) h = passed (leb target d) waits h (λ e. cc)
released_below target (closed d reason) h =
    passed (leb_option (some target) d) (refused reason) h (λ e. cc)

-- What the log holds, wherever the writer is.
kept-Holds :
    (c : Codec) (total firm all : List LogRecord) (w : Wal) (m : Mark) (phase : Phase)
    → IsAt c total firm all w m phase
    → IsOver c total firm all w
kept-Holds c total firm all w m idle (g, l, e, f) = (g.holds, [], e)
kept-Holds c total firm all w m (gathering batch) (g, l, e, f) = (g.holds, batch, e)
kept-Holds c total firm all w m (draining batch) (g, l, e, f) = (g.holds, batch, e)
kept-Holds c total firm all w m ended (o, closing) = o
kept-Holds c total firm all w m crashed o = o

-- For a codec that reads back what it writes, a log whose records are all on the medium, and whatever
-- the channel and the file system answer to the writer thread on it: if a wait for a number returns
-- with success at some point, and a loss of power then leaves of each segment, sealed or active, any
-- part that has the bytes on the medium, under its name, opening what is left for the same auction
-- succeeds, and what it reads are the records of the log and those that were submitted, in order, up to
-- some point, with a record of that number among them unless all of them come after it.
pub acknowledged_survives :
    (c : Codec) (sys : ℕ → Io) (all : List LogRecord) (w : Wal) (polls : List Poll) (target : Seq)
    (dir : Dir) (options : WalOptions) (existing config : AuctionConfig)
    → IsFaithful c
    → IsLog c all all w
    → wait_for target (run_writer c sys (spawn w) polls).mark ≡ released
    → IsLoss (run_writer c sys (spawn w) polls).wal existing dir
    → eq_config existing config ≡ true
    → (found lost : List LogRecord) × (w' : Wal) × (all ++ all_given polls ≡ found ++ lost)
      × (read_all c dir.segments ≡ records found)
      × (open_log c options config dir ≡ opened w' (describes existing))
      × IsLog c found found w'
      × (HasSeq target found ⊎ StartsAfter target found)
acknowledged_survives c sys all w polls target dir options existing config v g ack loss same =
    let t : Writer = run_writer c sys (spawn w) polls in
    let k : IsKept c (all ++ all_given polls) t =
      run_writer-IsKept c sys all (spawn w) polls (spawn-IsKept c all w g) in
    let (h, later, e) =
      kept-Holds c (all ++ all_given polls) k.firm k.all t.wal t.mark t.phase k.at in
    let (kept, lost, w', split, found, reopened, log) =
      open_log-Holds c k.firm k.all t.wal dir options existing config v h loss same in
    let run : IsRun none (k.firm ++ kept) =
      IsRun-front none (k.firm ++ kept) lost (subst (IsRun none) split h.in_order) in
    let durable : leb_option (some target) (last_seq none k.firm) ≡ true =
      subst (λ p. leb_option (some target) p ≡ true) k.known (released_below target t.mark ack) in
    (
      k.firm ++ kept,
      lost ++ later,
      w',
      sym e ∙ ap (λ l. l ++ later) split ∙ append_assoc (k.firm ++ kept) lost later,
      found,
      reopened,
      log,
      elim (run_covers target k.firm (IsRun-front none k.firm kept run) durable) [
        | inl has ↦ inl (HasSeq-append target k.firm kept has)
        | inr after ↦ inr (StartsAfter-append target k.firm kept after)
      ],
    )
