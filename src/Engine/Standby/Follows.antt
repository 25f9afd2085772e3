-- ===== src/Engine/Standby/Follows.antt =====
-- crates/auction-engine/src/replication.rs: the standby is where recovery from what it received would
-- be.
use dutch_auction.Base.{
  ℕ, suc, ◌≡◌, inl, inr, refl, sym, ◌∙◌, ap, arith, List, [], ◌∷◌, ◌++◌, Option, none, some, Bool,
  true, false, leb, ◌==◌, length, if◌then◌else◌,
}
use dutch_auction.Proto.Ids.{Seq, next_seq}
use dutch_auction.Core.Config.{AuctionConfig}
use dutch_auction.Core.State.{AuctionState, new_state}
use dutch_auction.Wal.Record.{LogRecord}
use dutch_auction.Wal.Replay.{
  Loop, finished, gap, panic, is_covered, follow, check_and_follow, replay,
}
use dutch_auction.Wal.Replay.Steps.{replay-cons, passed, finished_inv, Before, checked}
use dutch_auction.Engine.Time.{Clock}
use dutch_auction.Engine.Run.{
  EngineOptions, Submission, Answers, Engine, goes_on, run_engine, start_engine,
}
use dutch_auction.Engine.Run.Logged.{Awaits}
use dutch_auction.Engine.Run.Resumed.{
  fresh_auction, fresh-IsLogged, fresh_log, mirrored_log, engine_then,
}
use dutch_auction.Engine.Standby.{
  confirm, Receive, received, timed_out, following, start_standby, on_record, on_receive,
  follow_all,
}

-- The records that were received, where no stop was asked for and the sender was there.
pub data Carries : List Receive → List LogRecord → Type 0 where
  no_more : Carries [] []
  carried :
      (r : LogRecord) {receives : List Receive} {rs : List LogRecord}
      → Carries receives rs
      → Carries (received r ∷ receives) (r ∷ rs)
  idled :
      {receives : List Receive} {rs : List LogRecord}
      → Carries receives rs
      → Carries (timed_out false ∷ receives) rs

from_follow :
    (o : Option AuctionState) (seq : Seq) {t : AuctionState} {l : Option Seq} {n : ℕ}
    → (elim o as (λ _. Loop) [ none ↦ panic | some u ↦ finished u (some seq) 1 ]) ≡ finished t l n
    → o ≡ some t
from_follow none seq e = cc
from_follow (some u) seq e = ap some (finished_inv e).0

from_test :
    (seq prev : Seq) (b : Bool) (o : Option AuctionState) {t : AuctionState} {l : Option Seq}
    {n : ℕ}
    → (if b
        then elim o as (λ _. Loop) [ none ↦ panic | some u ↦ finished u (some seq) 1 ]
        else gap prev seq)
      ≡ finished t l n
    → o ≡ some t
from_test seq prev true o e = from_follow o seq e
from_test seq prev false o e = cc

from_next :
    (seq prev : Seq) (next : Option Seq) (o : Option AuctionState) {t : AuctionState}
    {l : Option Seq} {n : ℕ}
    → (elim next as (λ _. Loop) [
      | none ↦ panic
      | some expected ↦
          if seq == expected
          then elim o as (λ _. Loop) [ none ↦ panic | some u ↦ finished u (some seq) 1 ]
          else gap prev seq
    ])
      ≡ finished t l n
    → o ≡ some t
from_next seq prev none o e = cc
from_next seq prev (some expected) o e = from_test seq prev (seq == expected) o e

follow_checked :
    (last : Option Seq) (s t : AuctionState) (r : LogRecord) (l : Option Seq) (n : ℕ)
    → check_and_follow last s r ≡ finished t l n
    → follow s r ≡ some t
unfolding check_and_follow
follow_checked none s t r l n e = from_follow (follow s r) r.seq e
follow_checked (some prev) s t r l n e = from_next r.seq prev (next_seq prev) (follow s r) e

confirm_forward : (last : Option Seq) (seq : Seq) → Before last seq → confirm seq last ≡ some seq
unfolding confirm Before
confirm_forward none seq h = refl
confirm_forward (some prev) seq h = let e : leb seq prev ≡ false = ground arith in rw e refl

-- A standby at the end of the records so far, and a replay of the rest.
follows_replay :
    (receives : List Receive) (rs : List LogRecord) (last newest : Option Seq) (n m : ℕ)
    (s s' : AuctionState)
    → Carries receives rs
    → replay none last n s rs ≡ finished s' newest m
    → follow_all (record { state = s; mark = last; mood = following }) receives
      ≡ record { state = s'; mark = newest; mood = following }
unfolding follow_all on_receive on_record replay is_covered
follows_replay receives rs last newest n m s s' Carries.no_more told =
    let (a, b, _) = finished_inv told in
    ap (λ x. record { state = x; mark = last; mood = following }) a
    ∙ ap (λ x. record { state = s'; mark = x; mood = following }) b
follows_replay receives rs last newest n m s s' (Carries.carried r {receives = more} {rs = later} c)
      told =
    let (s1, last1, k, here, rest) =
      passed n later (check_and_follow last s r)
        (sym (replay-cons none last n s r later refl) ∙ told) in
    let went : follow s r ≡ some s1 = follow_checked last s s1 r last1 k here in
    let (is_newest, above) = checked last s r here in
    rw (went, on_record)
      (ap (λ x. follow_all (record { state = s1; mark = x; mood = following }) more)
          (confirm_forward last r.seq above ∙ sym is_newest)
        ∙ follows_replay more later last1 newest (suc n) m s1 s' c rest)
follows_replay receives rs last newest n m s s' (Carries.idled {receives = more} c) told =
    follows_replay more rs last newest n m s s' c told

-- For a replicated engine that was started on a fresh auction and has gone on through these commands:
-- a standby on the same fresh auction that has received any part of what it was sent, from the start
-- and in order, follows on, in the state that the engine had after as many commands; and it has
-- confirmed the number before the one that the engine gave next, or nothing if it received nothing.
pub follow_all-run_engine :
    (config : AuctionConfig) (options : EngineOptions) (clock : Clock) (e : Engine)
    (inputs : List (Submission × Answers)) (receives : List Receive) (found lost : List LogRecord)
    → run_engine (start_engine options true (fresh_auction config) clock) inputs ≡ goes_on e
    → e.replicated ≡ true
    → e.replica_tx ≡ found ++ lost
    → Carries receives found
    → (front back : List (Submission × Answers)) × (e1 : Engine) × (mark : Option Seq) × (inputs
        ≡ front ++ back)
      × (length front ≡ length found)
      × (run_engine (start_engine options true (fresh_auction config) clock) front ≡ goes_on e1)
      × (follow_all (start_standby (new_state config)) receives
          ≡ record { state = e1.state; mark = mark; mood = following })
      × Awaits mark e1.next_seq
unfolding start_standby
follow_all-run_engine config options clock e inputs receives found lost ran replicated cut c =
    let start : Engine = start_engine options true (fresh_auction config) clock in
    let sent : e.replica_tx ≡ e.log_tx = elim (mirrored_log config options clock e inputs ran) [
      | inl alone ↦ absurd (apart (sym replicated ∙ alone))
      | inr same ↦ same
    ] in
    let (front, back, e1, parts, long, first, same, g) =
      engine_then config start e inputs found lost (fresh-IsLogged options true config clock)
        (fresh_log options true config clock) ran (sym sent ∙ cut) in
    (
      front,
      back,
      e1,
      g.newest,
      parts,
      long,
      first,
      follows_replay receives found none g.newest 0 g.count (new_state config) e1.state c
          (ap (replay none none 0 (new_state config)) (sym same) ∙ g.told),
      g.linked,
    )
  where
    apart : ¬ (true ≡ false)
    apart q = cc
