-- ===== src/Wal/Replay/Steps.antt =====
-- crates/auction-wal/src/replay.rs: the loop over the records, one record at a time.
use dutch_auction.Base.{
  ℕ, suc, ◌+◌, ◌≤◌, ◌<◌, ◌≡◌, inl, inr, refl, sym, ◌∙◌, ap, arith, List, [], ◌∷◌, ◌++◌, Option,
  none, some, All, All-mono, if◌then◌else◌, ltb, ◌==◌, Bool, true, false, Bool-cases,
}
use dutch_auction.Base.Word.{u64_max}
use dutch_auction.Proto.Ids.{Seq, next_seq}
use dutch_auction.Core.State.{AuctionState}
use dutch_auction.Wal.Record.{LogRecord}
use dutch_auction.Wal.Replay.{
  Loop, finished, gap, panic, is_covered, follow, check_and_follow, replay,
}

-- One record is followed only if it comes next.
unfoldable pub Before : Option Seq → Seq → Type 0
Before none seq = Unit
Before (some prev) seq = prev < seq

followed :
    (o : Option AuctionState) (seq : Seq) {s' : AuctionState} {l : Option Seq} {n : ℕ}
    → (elim o as (λ _. Loop) [ none ↦ panic | some t ↦ finished t (some seq) 1 ]) ≡ finished s' l n
    → l ≡ some seq
followed none seq e = cc
followed (some t) seq e = cc

in_order :
    (prev seq : Seq) (b : Bool) (o : Option AuctionState) {s' : AuctionState} {l : Option Seq}
    {n : ℕ}
    → (elim (if b then some (prev + 1) else none) as (λ _. Loop) [
      | none ↦ panic
      | some expected ↦
          if seq == expected
          then elim o [ none ↦ panic | some t ↦ finished t (some seq) 1 ]
          else gap prev seq
    ])
      ≡ finished s' l n
    → (l ≡ some seq) × (prev < seq)
in_order prev seq false o e = cc
in_order prev seq true o {s'} {l} {n} e = elim (Bool-cases (seq == prev + 1)) [
  | inl q ↦ (followed o seq (rw q at e), ground arith)
  | inr q ↦ let stuck : gap prev seq ≡ finished s' l n = rw q at e in cc
]

pub checked :
    (last : Option Seq) (s : AuctionState) (r : LogRecord) {s' : AuctionState} {l : Option Seq}
    {n : ℕ}
    → check_and_follow last s r ≡ finished s' l n
    → (l ≡ some r.seq) × Before last r.seq
unfolding check_and_follow next_seq Before
checked none s r e = (followed (follow s r) r.seq e, tt)
checked (some prev) s r e = in_order prev r.seq (ltb prev u64_max) (follow s r) e

-- What is left of the loop after one record.
abbrev pub onward : Option Seq → ℕ → List LogRecord → Loop → Loop
onward resume n rs (finished s' last' _) = replay resume last' (suc n) s' rs
onward resume n rs (gap from found) = gap from found
onward resume n rs panic = panic

pub replay-cons :
    (resume last : Option Seq) (n : ℕ) (s : AuctionState) (r : LogRecord) (rs : List LogRecord)
    → is_covered resume r ≡ false
    → replay resume last n s (r ∷ rs) ≡ onward resume n rs (check_and_follow last s r)
unfolding replay
replay-cons resume last n s r rs e = rw (e, replay) (same (check_and_follow last s r))
  where
    same :
        (d : Loop)
        → (elim d as (λ _. Loop) [
          | finished s' last' _ ↦ replay resume last' (suc n) s' rs
          | gap from found ↦ gap from found
          | panic ↦ panic
        ])
          ≡ onward resume n rs d
    same (finished s' last' k) = refl
    same (gap from found) = refl
    same panic = refl

pub replay-covered :
    (resume last : Option Seq) (n : ℕ) (s : AuctionState) (r : LogRecord) (rs : List LogRecord)
    → is_covered resume r ≡ true
    → replay resume last n s (r ∷ rs) ≡ replay resume last n s rs
unfolding replay
replay-covered resume last n s r rs e = rw (e, replay) refl

-- The loop passes its first record: what that leaves, and the rest of the loop.
pub passed :
    (n : ℕ) (rs : List LogRecord) (d : Loop) {s' : AuctionState} {l : Option Seq} {m : ℕ}
    → onward none n rs d ≡ finished s' l m
    → (t : AuctionState) × (last' : Option Seq) × (k : ℕ) × (d ≡ finished t last' k)
      × (replay none last' (suc n) t rs ≡ finished s' l m)
passed n rs (finished t last' k) e = (t, last', k, refl, e)
passed n rs (gap from found) e = cc
passed n rs panic e = cc

pub finished_inv :
    {s s' : AuctionState} {l l' : Option Seq} {n n' : ℕ}
    → finished s l n ≡ finished s' l' n'
    → (s ≡ s') × (l ≡ l') × (n ≡ n')
finished_inv e = (cc, cc, cc)

-- A full replay that finishes, one record at a time.
pub record Step (last : Option Seq) (n : ℕ) (s : AuctionState) (r : LogRecord) (rs : List LogRecord)
    (s' : AuctionState) (l : Option Seq) (m : ℕ) : Type 0 where
  pub next : AuctionState
  pub count : ℕ
  pub follows : Before last r.seq
  pub here : check_and_follow last s r ≡ finished next (some r.seq) count
  pub rest : replay none (some r.seq) (suc n) next rs ≡ finished s' l m

pub step :
    (last : Option Seq) (n : ℕ) (s : AuctionState) (r : LogRecord) (rs : List LogRecord)
    {s' : AuctionState} {l : Option Seq} {m : ℕ}
    → replay none last n s (r ∷ rs) ≡ finished s' l m
    → Step last n s r rs s' l m
unfolding is_covered
step last n s r rs {s'} {l} {m} e =
    let (t, last', k, d, rest) =
      passed n rs (check_and_follow last s r) (sym (replay-cons none last n s r rs refl) ∙ e) in
    let (here, order) = checked last s r d in
    record {
      next = t;
      count = k;
      follows = order;
      here = d ∙ ap (λ x. finished t x k) here;
      rest = rw here at rest;
    }

-- The last number is not below the one before, and every record lies above the one before.
pub last-rises :
    (j n : ℕ) (s : AuctionState) (rs : List LogRecord) {s' : AuctionState} {k m : ℕ}
    → replay none (some j) n s rs ≡ finished s' (some k) m
    → j ≤ k
unfolding replay Before
last-rises j n s [] {s'} {k} {m} e =
    let same : some j ≡ some k = (finished_inv e).1 in let same' : j ≡ k = cc in omega arith
last-rises j n s (r ∷ rs) e =
    let p = step (some j) n s r rs e in
    omega (arith, p.follows, last-rises r.seq (suc n) p.next rs p.rest)

pub records_later :
    (j n : ℕ) (s : AuctionState) (rs : List LogRecord) {s' : AuctionState} {l : Option Seq} {m : ℕ}
    → replay none (some j) n s rs ≡ finished s' l m
    → All (λ (r : LogRecord). j < r.seq) rs
unfolding Before
records_later j n s [] e = tt
records_later j n s (r ∷ rs) e =
    let p = step (some j) n s r rs e in
    let lt : j < r.seq = p.follows in
    (
      lt,
      All-mono (λ q. r.seq < q.seq) (λ q. j < q.seq) rs (λ q h. omega (arith, lt, h))
          (records_later r.seq (suc n) p.next rs p.rest),
    )

pub records_covered :
    (last : Option Seq) (n : ℕ) (s : AuctionState) (rs : List LogRecord) {s' : AuctionState}
    {k m : ℕ}
    → replay none last n s rs ≡ finished s' (some k) m
    → All (λ (r : LogRecord). r.seq ≤ k) rs
records_covered last n s [] e = tt
records_covered last n s (r ∷ rs) e =
    let p = step last n s r rs e in
    (
      last-rises r.seq (suc n) p.next rs p.rest,
      records_covered (some r.seq) (suc n) p.next rs p.rest,
    )

pub replay-append :
    (last : Option Seq) (n : ℕ) (s : AuctionState) (xs ys : List LogRecord) {s' : AuctionState}
    {l : Option Seq} {m : ℕ}
    → replay none last n s xs ≡ finished s' l m
    → replay none last n s (xs ++ ys) ≡ replay none l m s' ys
unfolding replay is_covered
replay-append last n s [] ys e = let (a, b, c) = finished_inv e in rw (a, b, c) refl
replay-append last n s (r ∷ xs) ys e =
    let p = step last n s r xs e in
    replay-cons none last n s r (xs ++ ys) refl
    ∙ ap (onward none n (xs ++ ys)) p.here
    ∙ replay-append (some r.seq) (suc n) p.next xs ys p.rest
