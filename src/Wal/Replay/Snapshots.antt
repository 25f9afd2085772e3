-- ===== src/Wal/Replay/Snapshots.antt =====
-- crates/auction-wal/src/replay.rs: recovering from a snapshot gives what replaying the whole log gives.
use dutch_auction.Base.{
  ℕ, suc, ◌≤◌, ◌<◌, ◌≡◌, refl, sym, ◌∙◌, ap, arith, List, [], ◌∷◌, ◌++◌, Option, none, some, All,
  if◌then◌else◌, true, false,
}
use dutch_auction.Proto.Ids.{Seq, start_seq, next_seq}
use dutch_auction.Core.Config.{AuctionConfig}
use dutch_auction.Core.State.{AuctionState, new_state}
use dutch_auction.Wal.Record.{LogRecord}
use dutch_auction.Wal.Replay.{
  Snapshot, Recovered, Recovery, recovered, panicked, Loop, finished, gap, panic, is_covered,
  replay, conclude, is_ahead_of, usable, recover_from, recover,
}
use dutch_auction.Wal.Replay.Steps.{
  onward, replay-cons, replay-covered, finished_inv, step, last-rises, records_later,
  records_covered, replay-append,
}

-- Records that the snapshot covers are skipped.
skip_covered :
    (k n : ℕ) (last : Option Seq) (s : AuctionState) (xs ys : List LogRecord)
    → All (λ (r : LogRecord). r.seq ≤ k) xs
    → replay (some k) last n s (xs ++ ys) ≡ replay (some k) last n s ys
unfolding is_covered
skip_covered k n last s [] ys h = refl
skip_covered k n last s (r ∷ xs) ys (h, hs) =
    replay-covered (some k) last n s r (xs ++ ys) (covered k r h) ∙ skip_covered k n last s xs ys hs
  where
    covered : (k : ℕ) (r : LogRecord) → r.seq ≤ k → is_covered (some k) r ≡ true
    covered k r h = ground arith

-- Past the snapshot the loop does what it does without one, but for the count.
past_snapshot :
    (k n n' : ℕ) (last : Option Seq) (s : AuctionState) (ys : List LogRecord) {s' : AuctionState}
    {l : Option Seq} {m : ℕ}
    → All (λ (r : LogRecord). k < r.seq) ys
    → replay none last n s ys ≡ finished s' l m
    → (m' : ℕ) × (replay (some k) last n' s ys ≡ finished s' l m')
unfolding replay is_covered
past_snapshot k n n' last s [] h e = let (a, b, c) = finished_inv e in (n', rw (a, b) refl)
past_snapshot k n n' last s (r ∷ ys) (h, hs) e =
    let p = step last n s r ys e in
    let (m', e') = past_snapshot k (suc n) (suc n') (some r.seq) p.next ys hs p.rest in
    (
      m',
      replay-cons (some k) last n' s r ys (uncovered k r h)
          ∙ ap (onward (some k) n' ys) p.here
          ∙ e',
    )
  where
    uncovered : (k : ℕ) (r : LogRecord) → k < r.seq → is_covered (some k) r ≡ false
    uncovered k r h = ground arith

ends :
    (j n : ℕ) (s : AuctionState) (rs : List LogRecord) {s' : AuctionState} {l : Option Seq} {m : ℕ}
    → replay none (some j) n s rs ≡ finished s' l m
    → (k : Seq) × (l ≡ some k)
unfolding replay
ends j n s [] e = (j, sym (finished_inv e).1)
ends j n s (r ∷ rs) e = let p = step (some j) n s r rs e in ends r.seq (suc n) p.next rs p.rest

no_more :
    (n : ℕ) (s : AuctionState) {l l' : Option Seq} {s' : AuctionState} {m : ℕ}
    → replay none l n s [] ≡ finished s' l' m
    → l ≡ l'
unfolding replay
no_more n s e = (finished_inv e).1

-- A log that ends at or after the snapshot is not behind it.
not_ahead :
    (snap : Snapshot) (last : Option Seq) (n : ℕ) (s : AuctionState) (rs : List LogRecord)
    {s' : AuctionState} {j m : ℕ}
    → snap.seq ≤ j
    → replay none last n s rs ≡ finished s' (some j) m
    → is_ahead_of snap rs ≡ false
unfolding is_ahead_of
not_ahead snap last n s [] h e = refl
not_ahead snap last n s (r ∷ []) {s'} {j} {m} h e =
    let p = step last n s r [] e in
    let le : j ≤ r.seq =
      let same : some r.seq ≡ some j = no_more (suc n) p.next p.rest in
      let same' : r.seq ≡ j = cc in omega arith in
    ground arith
not_ahead snap last n s (r ∷ q ∷ rs) h e =
    let p = step last n s r (q ∷ rs) e in
    not_ahead snap (some r.seq) (suc n) p.next (q ∷ rs) h p.rest

concluded :
    (d : Loop) {r : Recovered}
    → conclude none d ≡ recovered r
    → (s : AuctionState) × (l : Option Seq) × (n : ℕ) × (d ≡ finished s l n)
unfolding conclude
concluded (finished s l n) e = (s, l, n, refl)
concluded (gap a b) e = cc
concluded panic e = cc

-- The count and the snapshot do not matter to the state and the next number.
same_conclusion :
    (from : Option Seq) (s : AuctionState) (l : Option Seq) (n m : ℕ) {r : Recovered}
    → conclude none (finished s l n) ≡ recovered r
    → (r' : Recovered) × (conclude from (finished s l m) ≡ recovered r')
      × (r'.state ≡ r.state)
      × (r'.next_seq ≡ r.next_seq)
unfolding conclude
same_conclusion from s none n m {r} e =
    let same : record { state = s; next_seq = start_seq; replayed = n; from_snapshot = none } ≡ r =
      inner e in
    (
      record { state = s; next_seq = start_seq; replayed = m; from_snapshot = from },
      refl,
      ap (λ (x : Recovered). x.state) same,
      ap (λ (x : Recovered). x.next_seq) same,
    )
  where
    inner : {a b : Recovered} → recovered a ≡ recovered b → a ≡ b
    inner q = cc
same_conclusion from s (some last) n m {r} e = numbered (next_seq last) e
  where
    result : Option Seq → ℕ → Seq → Recovered
    result f k next = record { state = s; next_seq = next; replayed = k; from_snapshot = f }

    numbered :
        (next : Option Seq)
        → (elim next as (λ _. Recovery) [ none ↦ panicked | some x ↦ recovered (result none n x) ])
          ≡ recovered r
        → (r' : Recovered) × ((elim next as (λ _. Recovery) [
          | none ↦ panicked
          | some x ↦ recovered (result from m x)
        ])
            ≡ recovered r')
          × (r'.state ≡ r.state)
          × (r'.next_seq ≡ r.next_seq)
    numbered none e = cc
    numbered (some x) e =
        let same : result none n x ≡ r = cc in
        (
          result from m x,
          refl,
          ap (λ (y : Recovered). y.state) same,
          ap (λ (y : Recovered). y.next_seq) same,
        )

-- If replaying the whole log succeeds, and a snapshot holds the state and the number that replaying
-- its first part (at least one record) reaches, then recovering with that snapshot succeeds too, with
-- the same state and the same next sequence number.
pub recover_snapshot :
    (config : AuctionConfig) (before after : List LogRecord) {snap : Snapshot} {n : ℕ}
    {r : Recovered}
    → replay none none 0 (new_state config) before ≡ finished snap.state (some snap.seq) n
    → recover config (before ++ after) none ≡ recovered r
    → (r' : Recovered) × (recover config (before ++ after) (some snap) ≡ recovered r')
      × (r'.state ≡ r.state)
      × (r'.next_seq ≡ r.next_seq)
unfolding recover recover_from usable
recover_snapshot config before after {snap} {n} {r} prefix whole =
    let (s, l, m, done) =
      concluded (replay none none 0 (new_state config) (before ++ after)) whole in
    let suffix : replay none (some snap.seq) n snap.state after ≡ finished s l m =
      sym (replay-append none 0 (new_state config) before after prefix) ∙ done in
    let skipped =
      skip_covered snap.seq 0 (some snap.seq) snap.state before after
        (records_covered none 0 (new_state config) before prefix) in
    let (m', e) =
      past_snapshot snap.seq n 0 (some snap.seq) snap.state after
        (records_later snap.seq n snap.state after suffix) suffix in
    let (r', c, a, b) =
      same_conclusion (some snap.seq) s l m m' (ap (conclude none) (sym done) ∙ whole) in
    let (k, numbered) = ends snap.seq n snap.state after suffix in
    let rises : snap.seq ≤ k =
      last-rises snap.seq n snap.state after (suffix ∙ ap (λ x. finished s x m) numbered) in
    let behind : is_ahead_of snap (before ++ after) ≡ false =
      not_ahead snap none 0 (new_state config) (before ++ after) rises
        (done ∙ ap (λ x. finished s x m) numbered) in
    (
      r',
      ap (λ b. recover_from config (before ++ after) (if b then none else some snap)) behind
          ∙ ap (conclude (some snap.seq)) (skipped ∙ e)
          ∙ c,
      a,
      b,
    )
