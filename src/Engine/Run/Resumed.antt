-- ===== src/Engine/Run/Resumed.antt =====
-- crates/auction-engine/src/engine.rs and crates/auction-wal/src/replay.rs: recovery from any part of
-- the engine's log gives the engine as it was then.
use dutch_auction.Base.{
  ℕ, suc, ◌≤◌, ◌≡◌, ◌⊎◌, inr, refl, sym, ◌∙◌, ap, subst, arith, Bool, true, false, List, [], ◌∷◌,
  ◌++◌, Option, none, some, length, length-append, length-take, take, drop, take-drop, same_front,
}
use mathlib.Core.List.{append_assoc, append-nil}
use dutch_auction.Proto.Ids.{Seq, start_seq}
use dutch_auction.Core.Config.{AuctionConfig}
use dutch_auction.Core.State.{AuctionState, new_state}
use dutch_auction.Wal.Record.{LogRecord}
use dutch_auction.Wal.Replay.{
  Recovered, recovered, finished, replay, conclude, usable, recover_from, recover,
}
use dutch_auction.Engine.Time.{Clock}
use dutch_auction.Engine.Run.{
  EngineOptions, Submission, Engine, Answers, Turn, goes_on, stopped, engine_panic, turn,
  run_engine, start_engine,
}
use dutch_auction.Engine.Run.Logged.{Awaits, IsLogged, TurnEnds, turn-TurnEnds}

-- The first of the records, if there is one, has this number.
abbrev pub StartsAt : Seq → List LogRecord → Type 0
StartsAt seq [] = Unit
StartsAt seq (r ∷ rs) = r.seq ≡ seq

-- A run that goes on: each command left one record in the log.
pub record RunDone (last : Option Seq) (s : AuctionState) (e : Engine) (n : ℕ) (e' : Engine)
    : Type 0 where
  pub logged : IsLogged last s e'
  pub added : List LogRecord
  pub grown : e'.log_tx ≡ e.log_tx ++ added
  pub counted : length added ≡ n
  pub starts : StartsAt e.next_seq added

abbrev pub RunEnds : Option Seq → AuctionState → Engine → ℕ → Turn → Type 0
RunEnds last s e n (goes_on e') = RunDone last s e n e'
RunEnds last s e n (stopped e') = Unit
RunEnds last s e n engine_panic = Unit

run_engine-RunEnds :
    (last : Option Seq) (s : AuctionState) (e : Engine) (inputs : List (Submission × Answers))
    → IsLogged last s e
    → RunEnds last s e (length inputs) (run_engine e inputs)
unfolding run_engine
run_engine-RunEnds last s e [] g = record {
  logged = g;
  added = [];
  grown = sym (append-nil e.log_tx);
  counted = refl;
  starts = tt;
}
run_engine-RunEnds last s e (input ∷ inputs) g =
    from_turn (turn e input.0 input.1) (turn-TurnEnds last s e input.0 input.1 g)
      (λ e1 h. run_engine-RunEnds last s e1 inputs h)
  where
    one_longer :
        (e1 : Engine) (r : LogRecord) (t : Turn)
        → e1.log_tx ≡ e.log_tx ++ r ∷ []
        → r.seq ≡ e.next_seq
        → RunEnds last s e1 (length inputs) t
        → RunEnds last s e (suc (length inputs)) t
    one_longer e1 r (goes_on e2) grown number d = record {
      logged = d.logged;
      added = r ∷ d.added;
      grown = d.grown ∙ ap (λ l. l ++ d.added) grown ∙ append_assoc e.log_tx (r ∷ []) d.added;
      counted = ap suc d.counted;
      starts = number;
    }
    one_longer e1 r (stopped e2) grown number d = tt
    one_longer e1 r engine_panic grown number d = tt

    from_turn :
        (t : Turn)
        → TurnEnds last s e t
        → ((e1 : Engine)
            → IsLogged last s e1
            → RunEnds last s e1 (length inputs) (run_engine e1 inputs))
        → RunEnds last s e (suc (length inputs)) (elim t as (λ _. Turn) [
          | goes_on e' ↦ run_engine e' inputs
          | stopped e' ↦ stopped e'
          | engine_panic ↦ engine_panic
        ])
    from_turn (goes_on e1) d rest =
        one_longer e1 d.record_added (run_engine e1 inputs) d.grown d.numbered (rest e1 d.logged)
    from_turn (stopped e1) d rest = tt
    from_turn engine_panic d rest = tt

-- A run in two parts.
run_engine-append :
    (e e' : Engine) (front back : List (Submission × Answers))
    → run_engine e (front ++ back) ≡ goes_on e'
    → (e1 : Engine) × (run_engine e front ≡ goes_on e1) × (run_engine e1 back ≡ goes_on e')
unfolding run_engine
run_engine-append e e' [] back h = (e, refl, h)
run_engine-append e e' (input ∷ front) back h =
    from_turn (turn e input.0 input.1) (λ e1 k. run_engine-append e1 e' front back k) h
  where
    from_turn :
        (t : Turn)
        → ((e1 : Engine)
            → run_engine e1 (front ++ back) ≡ goes_on e'
            → (e2 : Engine) × (run_engine e1 front ≡ goes_on e2)
              × (run_engine e2 back ≡ goes_on e'))
        → (elim t as (λ _. Turn) [
          | goes_on u ↦ run_engine u (front ++ back)
          | stopped u ↦ stopped u
          | engine_panic ↦ engine_panic
        ])
          ≡ goes_on e'
        → (e2 : Engine) × ((elim t as (λ _. Turn) [
          | goes_on u ↦ run_engine u front
          | stopped u ↦ stopped u
          | engine_panic ↦ engine_panic
        ])
            ≡ goes_on e2)
          × (run_engine e2 back ≡ goes_on e')
    from_turn (goes_on e1) rest k = rest e1 k
    from_turn (stopped e1) rest k = cc
    from_turn engine_panic rest k = cc

-- The log of a fresh auction, recovered.
recovered_log :
    (config : AuctionConfig) (e : Engine)
    → IsLogged none (new_state config) e
    → (r : Recovered) × (recover config e.log_tx none ≡ recovered r)
      × (r.state ≡ e.state)
      × (r.next_seq ≡ e.next_seq)
unfolding recover recover_from usable conclude
recovered_log config e g =
    let (r, e', same, next) = concluded e.state g.newest g.count e.next_seq g.linked in
    (r, ap (conclude none) g.told ∙ e', same, next)
  where
    concluded :
        (s : AuctionState) (newest : Option Seq) (n : ℕ) (next : Seq)
        → Awaits newest next
        → (r : Recovered) × (conclude none (finished s newest n) ≡ recovered r)
          × (r.state ≡ s)
          × (r.next_seq ≡ next)
    concluded s none n next h = (
      record { state = s; next_seq = start_seq; replayed = n; from_snapshot = none },
      refl,
      refl,
      sym h,
    )
    concluded s (some prev) n next h = (
      record { state = s; next_seq = next; replayed = n; from_snapshot = none },
      rw (h, conclude) refl,
      refl,
      refl,
    )

abbrev pub fresh_auction : AuctionConfig → Recovered
fresh_auction config = record {
  state = new_state config;
  next_seq = start_seq;
  replayed = 0;
  from_snapshot = none;
}

pub fresh-IsLogged :
    (options : EngineOptions) (replicated : Bool) (config : AuctionConfig) (clock : Clock)
    → IsLogged none
        (new_state config)
        (start_engine options replicated (fresh_auction config) clock)
unfolding start_engine replay
fresh-IsLogged options replicated config clock = record {
  newest = none;
  count = 0;
  told = refl;
  linked = refl;
  mirrored = inr refl;
}

-- A run of a fresh auction, and the engine when it had logged some part of its log.
pub engine_then :
    (config : AuctionConfig) (e e' : Engine) (inputs : List (Submission × Answers))
    (found lost : List LogRecord)
    → IsLogged none (new_state config) e
    → e.log_tx ≡ []
    → run_engine e inputs ≡ goes_on e'
    → e'.log_tx ≡ found ++ lost
    → (front back : List (Submission × Answers)) × (e1 : Engine) × (inputs ≡ front ++ back)
      × (length front ≡ length found)
      × (run_engine e front ≡ goes_on e1)
      × (e1.log_tx ≡ found)
      × IsLogged none (new_state config) e1
engine_then config e e' inputs found lost g empty ran cut =
    let n : ℕ = length found in
    let front : List (Submission × Answers) = take n inputs in
    let back : List (Submission × Answers) = drop n inputs in
    let parts : inputs ≡ front ++ back = take-drop n inputs in
    let whole : RunDone none (new_state config) e (length inputs) e' =
      subst (RunEnds none (new_state config) e (length inputs)) ran
        (run_engine-RunEnds none (new_state config) e inputs g) in
    let (e1, first, second) =
      run_engine-append e e' front back (ap (run_engine e) (sym parts) ∙ ran) in
    let d : RunDone none (new_state config) e (length front) e1 =
      subst (RunEnds none (new_state config) e (length front)) first
        (run_engine-RunEnds none (new_state config) e front g) in
    let later : RunDone none (new_state config) e1 (length back) e' =
      subst (RunEnds none (new_state config) e1 (length back)) second
        (run_engine-RunEnds none (new_state config) e1 back d.logged) in
    let total : length e'.log_tx ≡ length inputs =
      ap length whole.grown ∙ ap (λ l. length (l ++ whole.added)) empty ∙ whole.counted in
    let enough : n ≤ length inputs =
      omega (arith, total, ap length cut, length-append found lost) in
    let long : length front ≡ n = omega (arith, length-take n inputs, enough) in
    let grown : e1.log_tx ≡ d.added = d.grown ∙ ap (λ l. l ++ d.added) empty in
    let same : e1.log_tx ≡ found =
      same_front e1.log_tx found later.added lost (sym later.grown ∙ cut)
        (ap length grown ∙ d.counted ∙ long) in
    (front, back, e1, parts, long, first, same, d.logged)

pub fresh_log :
    (options : EngineOptions) (replicated : Bool) (config : AuctionConfig) (clock : Clock)
    → (start_engine options replicated (fresh_auction config) clock).log_tx ≡ []
unfolding start_engine
fresh_log options replicated config clock = refl

StartsAt-front :
    (seq : Seq) (front back : List LogRecord) → StartsAt seq (front ++ back) → StartsAt seq front
StartsAt-front seq [] back h = tt
StartsAt-front seq (r ∷ front) back h = h

pub log_starts :
    (config : AuctionConfig) (options : EngineOptions) (replicated : Bool) (clock : Clock)
    (e : Engine) (inputs : List (Submission × Answers)) (found lost : List LogRecord)
    → run_engine (start_engine options replicated (fresh_auction config) clock) inputs ≡ goes_on e
    → e.log_tx ≡ found ++ lost
    → StartsAt start_seq found
unfolding start_engine
log_starts config options replicated clock e inputs found lost ran cut =
    let start : Engine = start_engine options replicated (fresh_auction config) clock in
    let d : RunDone none (new_state config) start (length inputs) e =
      subst (RunEnds none (new_state config) start (length inputs)) ran (
        run_engine-RunEnds none (new_state config) start inputs
          (fresh-IsLogged options replicated config clock)) in
    StartsAt-front start_seq found lost (subst (StartsAt start_seq) (sym d.grown ∙ cut) d.starts)

-- What a standby is sent is what the log is sent.
pub mirrored_log :
    (config : AuctionConfig) (options : EngineOptions) (clock : Clock) (e : Engine)
    (inputs : List (Submission × Answers))
    → run_engine (start_engine options true (fresh_auction config) clock) inputs ≡ goes_on e
    → (e.replicated ≡ false) ⊎ (e.replica_tx ≡ e.log_tx)
mirrored_log config options clock e inputs ran =
    let start : Engine = start_engine options true (fresh_auction config) clock in
    let d : RunDone none (new_state config) start (length inputs) e =
      subst (RunEnds none (new_state config) start (length inputs)) ran (
        run_engine-RunEnds none (new_state config) start inputs
          (fresh-IsLogged options true config clock)) in
    d.logged.mirrored

-- For an engine that was started on a fresh auction and has gone on through these commands, whatever
-- they were: recovery from any part of its log from the start, the whole of it included, succeeds with
-- the state and the next number that the engine itself had after as many commands.
pub recover-run_engine :
    (config : AuctionConfig) (options : EngineOptions) (replicated : Bool) (clock : Clock)
    (e : Engine) (inputs : List (Submission × Answers)) (found lost : List LogRecord)
    → run_engine (start_engine options replicated (fresh_auction config) clock) inputs ≡ goes_on e
    → e.log_tx ≡ found ++ lost
    → (front back : List (Submission × Answers)) × (e1 : Engine) × (r : Recovered) × (inputs
        ≡ front ++ back)
      × (length front ≡ length found)
      × (run_engine (start_engine options replicated (fresh_auction config) clock) front
          ≡ goes_on e1)
      × (recover config found none ≡ recovered r)
      × (r.state ≡ e1.state)
      × (r.next_seq ≡ e1.next_seq)
recover-run_engine config options replicated clock e inputs found lost ran cut =
    let start : Engine = start_engine options replicated (fresh_auction config) clock in
    let (front, back, e1, parts, long, first, same, g) =
      engine_then config start e inputs found lost (fresh-IsLogged options replicated config clock)
        (fresh_log options replicated config clock) ran cut in
    let (r, recovering, state, next) = recovered_log config e1 g in
    (
      front,
      back,
      e1,
      r,
      parts,
      long,
      first,
      ap (λ l. recover config l none) (sym same) ∙ recovering,
      state,
      next,
    )
