-- ===== src/Engine/Run/Logged.antt =====
-- crates/auction-engine/src/engine.rs: what the engine logs tells its state, and that of every moment
-- before.
use dutch_auction.Base.{
  ℕ, suc, ◌-◌, ◌≡◌, ◌⊎◌, inl, inr, refl, sym, ◌∙◌, ap, subst, arith, List, [], ◌∷◌, ◌++◌, Option,
  none, some, Bool, true, false, not, ◌&&◌, ◌||◌, ◌==◌, if◌then◌else◌, if_cases, option_cases, leb,
}
use dutch_auction.Base.Word.{saturating_mul_u64}
use dutch_auction.Proto.Ids.{Seq, start_seq, next_seq}
use dutch_auction.Proto.Status.{is_terminal}
use dutch_auction.Core.State.{AuctionState, Out}
use dutch_auction.Core.Apply.{apply}
use dutch_auction.Wal.Record.{LogRecord}
use dutch_auction.Wal.Replay.{finished, is_covered, follow, check_and_follow, replay}
use dutch_auction.Wal.Replay.Steps.{onward, replay-cons, passed, finished_inv}
use dutch_auction.Wal.Log.Reads.{Follows}
use dutch_auction.Engine.Time.{Clock, clock_now}
use dutch_auction.Engine.Run.{
  Submission, Engine, Answers, Turn, goes_on, stopped, engine_panic, maybe_snapshot,
  snapshot_terminal, offer_snapshots, next_clock, view_after, after_apply, stamp_and_apply, turn,
}

check_passed :
    (last : Option Seq) (s t : AuctionState) (r : LogRecord)
    → Follows last r.seq
    → follow s r ≡ some t
    → check_and_follow last s r ≡ finished t (some r.seq) 1
unfolding check_and_follow
check_passed none s t r f e = rw (e, check_and_follow) refl
check_passed (some prev) s t r f e =
    let same : (r.seq == r.seq) ≡ true = ground arith in
    rw (f, check_and_follow) (rw same (rw (e, check_and_follow) refl))

follow_applied :
    (s : AuctionState) (r : LogRecord) (o : Out)
    → apply s r.seq r.ts r.cmd ≡ some o
    → follow s r ≡ some o.state
unfolding follow
follow_applied s r o e = rw (e, follow) refl

-- One more record at the end of a replay.
replay-snoc :
    (rs : List LogRecord) (last l : Option Seq) (n m : ℕ) (s s' t : AuctionState) (r : LogRecord)
    → replay none last n s rs ≡ finished s' l m
    → Follows l r.seq
    → follow s' r ≡ some t
    → replay none last n s (rs ++ r ∷ []) ≡ finished t (some r.seq) (suc m)
unfolding replay is_covered
replay-snoc [] last l n m s s' t r told f e =
    let (same_state, same_last, same_count) = finished_inv told in
    replay-cons none last n s r [] refl
    ∙ ap (onward none n []) (
        check_passed last s t r (subst (λ p. Follows p r.seq) (sym same_last) f)
          (ap (λ x. follow x r) same_state ∙ e))
    ∙ ap (λ k. finished t (some r.seq) (suc k)) same_count
replay-snoc (x ∷ rs) last l n m s s' t r told f e =
    let (s1, last1, k, here, rest) =
      passed n rs (check_and_follow last s x) (sym (replay-cons none last n s x rs refl) ∙ told) in
    replay-cons none last n s x (rs ++ r ∷ []) refl
    ∙ ap (onward none n (rs ++ r ∷ [])) here
    ∙ replay-snoc rs last1 l (suc n) m s1 s' t r rest f e

-- What the log does not tell is the same in two engines, but for the snapshots.
pub record SameCourse (e e' : Engine) : Type 0 where
  pub state : e'.state ≡ e.state
  pub next_seq : e'.next_seq ≡ e.next_seq
  pub log_tx : e'.log_tx ≡ e.log_tx
  pub ack_tx : e'.ack_tx ≡ e.ack_tx
  pub replica_tx : e'.replica_tx ≡ e.replica_tx
  pub replicated : e'.replicated ≡ e.replicated

same_course : (e : Engine) → SameCourse e e
same_course e = record {
  state = refl;
  next_seq = refl;
  log_tx = refl;
  ack_tx = refl;
  replica_tx = refl;
  replicated = refl;
}

maybe_snapshot_lem :
    (quiet room : Bool) (seq : Seq) (e : Engine) → SameCourse e (maybe_snapshot quiet room seq e)
unfolding maybe_snapshot
maybe_snapshot_lem quiet room seq e =
    if_cases (SameCourse e)
      (leb e.options.snapshot_every (seq - e.last_snapshot) && quiet
        || leb (saturating_mul_u64 e.options.snapshot_every 4) (seq - e.last_snapshot))
      _ _
      (λ _.
        if_cases (SameCourse e) room _ _
          (λ _. record {
            state = refl;
            next_seq = refl;
            log_tx = refl;
            ack_tx = refl;
            replica_tx = refl;
            replicated = refl;
          })
          (λ _. same_course e))
      (λ _. same_course e)

snapshot_terminal_lem :
    (room : Bool) (seq : Seq) (e : Engine) → SameCourse e (snapshot_terminal room seq e)
unfolding snapshot_terminal
snapshot_terminal_lem room seq e =
    if_cases (SameCourse e) (is_terminal e.state.status && not e.snapshotted_terminal && room) _ _
      (λ _. record {
        state = refl;
        next_seq = refl;
        log_tx = refl;
        ack_tx = refl;
        replica_tx = refl;
        replicated = refl;
      })
      (λ _. same_course e)

offer_snapshots_lem :
    (a : Answers) (seq : Seq) (e : Engine) → SameCourse e (offer_snapshots a seq e)
unfolding offer_snapshots
offer_snapshots_lem a seq e =
    let u : Engine = maybe_snapshot a.quiet a.room seq e in
    let c = maybe_snapshot_lem a.quiet a.room seq e in
    let d = snapshot_terminal_lem a.terminal_room seq u in
    record {
      state = d.state ∙ c.state;
      next_seq = d.next_seq ∙ c.next_seq;
      log_tx = d.log_tx ∙ c.log_tx;
      ack_tx = d.ack_tx ∙ c.ack_tx;
      replica_tx = d.replica_tx ∙ c.replica_tx;
      replicated = d.replicated ∙ c.replicated;
    }

-- The engine's next number, after the newest one in the log.
abbrev pub Awaits : Option Seq → Seq → Type 0
Awaits none seq = seq ≡ start_seq
Awaits (some prev) seq = next_seq prev ≡ some seq

Awaits-Follows : (newest : Option Seq) (seq : Seq) → Awaits newest seq → Follows newest seq
Awaits-Follows none seq h = tt
Awaits-Follows (some prev) seq h = h

-- The log so far, replayed from the state `s` after the number `last`, gives the engine's state, and
-- its next number comes next.
pub record IsLogged (last : Option Seq) (s : AuctionState) (e : Engine) : Type 0 where
  pub newest : Option Seq
  pub count : ℕ
  pub told : replay none last 0 s e.log_tx ≡ finished e.state newest count
  pub linked : Awaits newest e.next_seq
  pub mirrored : (e.replicated ≡ false) ⊎ (e.replica_tx ≡ e.log_tx)

SameCourse-IsLogged :
    (last : Option Seq) (s : AuctionState) (e e' : Engine)
    → SameCourse e e'
    → IsLogged last s e
    → IsLogged last s e'
SameCourse-IsLogged last s e e' c g = record {
  newest = g.newest;
  count = g.count;
  told =
      ap (replay none last 0 s) c.log_tx
      ∙ g.told
      ∙ ap (λ x. finished x g.newest g.count) (sym c.state);
  linked = subst (Awaits g.newest) (sym c.next_seq) g.linked;
  mirrored = elim g.mirrored [
    | inl alone ↦ inl (c.replicated ∙ alone)
    | inr same ↦ inr (c.replica_tx ∙ same ∙ sym c.log_tx)
  ];
}

-- One turn: the log grows by one record, and the pendings with it.
pub record TurnDone (last : Option Seq) (s : AuctionState) (e e' : Engine) : Type 0 where
  pub logged : IsLogged last s e'
  pub record_added : LogRecord
  pub grown : e'.log_tx ≡ e.log_tx ++ record_added ∷ []
  pub numbered : record_added.seq ≡ e.next_seq

abbrev pub TurnEnds : Option Seq → AuctionState → Engine → Turn → Type 0
TurnEnds last s e (goes_on e') = TurnDone last s e e'
TurnEnds last s e (stopped e') = Unit
TurnEnds last s e engine_panic = Unit

mirror :
    (replicated : Bool) (sent logged : List LogRecord) (r : LogRecord)
    → (replicated ≡ false) ⊎ (sent ≡ logged)
    → (replicated ≡ false) ⊎ ((if replicated then sent ++ r ∷ [] else sent) ≡ logged ++ r ∷ [])
mirror false sent logged r h = inl refl
mirror true sent logged r (inl e) = inl e
mirror true sent logged r (inr e) = inr (ap (λ l. l ++ r ∷ []) e)

after_apply-TurnEnds :
    (last : Option Seq) (s : AuctionState) (sub : Submission) (a : Answers) (r : LogRecord)
    (o : Out) (e : Engine) (clock : Clock) (next : Seq)
    → IsLogged last s e
    → r.seq ≡ e.next_seq
    → next_seq e.next_seq ≡ some next
    → follow e.state r ≡ some o.state
    → TurnEnds last s e
        (after_apply sub a r o (record e { state = o.state; next_seq = next; clock = clock }))
unfolding after_apply
after_apply-TurnEnds last s sub a r o e clock next g here up went =
    let after : Engine = record e {
      state = o.state;
      next_seq = next;
      clock = clock;
      replica_tx = if e.replicated then e.replica_tx ++ r ∷ [] else e.replica_tx;
      log_tx = e.log_tx ++ r ∷ [];
      ack_tx =
          e.ack_tx
          ++ (record { seq = r.seq; events = o.events; reply = sub.reply; view = view_after o })
            ∷ [];
    } in
    let told : IsLogged last s after = record {
      newest = some r.seq;
      count = suc g.count;
      told =
          replay-snoc e.log_tx last g.newest 0 g.count s e.state o.state r g.told
            (Awaits-Follows g.newest r.seq (subst (Awaits g.newest) (sym here) g.linked)) went;
      linked = ap next_seq here ∙ up;
      mirrored = mirror e.replicated e.replica_tx e.log_tx r g.mirrored;
    } in
    let course = offer_snapshots_lem a r.seq after in
    if_cases (TurnEnds last s e) a.committing _ _
      (λ _.
        if_cases (TurnEnds last s e) a.acking _ _
          (λ _. record {
            logged = SameCourse-IsLogged last s after (offer_snapshots a r.seq after) course told;
            record_added = r;
            grown = course.log_tx;
            numbered = here;
          })
          (λ _. tt))
      (λ _. tt)

stamp_and_apply-TurnEnds :
    (last : Option Seq) (s : AuctionState) (sub : Submission) (a : Answers) (next : Seq)
    (clock : Clock) (e : Engine)
    → IsLogged last s e
    → next_seq e.next_seq ≡ some next
    → TurnEnds last s e (stamp_and_apply sub a next clock e)
unfolding stamp_and_apply
stamp_and_apply-TurnEnds last s sub a next clock e g up =
    let r : LogRecord = record {
      seq = e.next_seq;
      ts = clock_now clock a.read_at;
      cmd = sub.cmd;
    } in
    option_cases (TurnEnds last s e) (apply e.state r.seq r.ts r.cmd) engine_panic
      (λ o. after_apply sub a r o (record e { state = o.state; next_seq = next; clock = clock }))
      (λ _. tt)
      (λ o applied.
        after_apply-TurnEnds last s sub a r o e clock next g refl up
          (follow_applied e.state r o applied))

pub turn-TurnEnds :
    (last : Option Seq) (s : AuctionState) (e : Engine) (sub : Submission) (a : Answers)
    → IsLogged last s e
    → TurnEnds last s e (turn e sub a)
unfolding turn
turn-TurnEnds last s e sub a g =
    option_cases (TurnEnds last s e) (next_seq e.next_seq) engine_panic _ (λ _. tt)
      λ next up.
        option_cases (TurnEnds last s e) (next_clock sub a e) engine_panic
          (λ clock. stamp_and_apply sub a next clock e) (λ _. tt)
          (λ clock _. stamp_and_apply-TurnEnds last s sub a next clock e g up)
