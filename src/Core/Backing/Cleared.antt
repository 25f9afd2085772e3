-- ===== src/Core/Backing/Cleared.antt =====
-- crates/auction-core/src/state.rs, `clear`: repricing gives back exactly what the fills cost less.
use dutch_auction.Base.{
  ℕ, ◌+◌, ◌-◌, ◌*◌, ◌≤◌, ◌≡◌, refl, ◌∙◌, ap, subst, arith, some, ◌==◌, List, [], ◌∷◌, All, if_cases,
  Bool-cases, inl, inr,
}
use dutch_auction.Base.Int.{pos, negsuc, pos_part, neg_part, eq_ℤ}
use dutch_auction.Base.Word.{i64_max, saturating_sub_i64}
use dutch_auction.Proto.Ids.{ParticipantId}
use dutch_auction.Proto.Money.{Price, Qty}
use dutch_auction.Proto.Status.{RejectReason, Status}
use dutch_auction.Core.Event.{Fill}
use dutch_auction.Core.State.{Out, push_event}
use dutch_auction.Core.Clear.{reprice_fill, reprice_all, reprice_fills, announce_cleared, clear}
use dutch_auction.Core.Backing.{owes, IsFit, Holds, ladder_owed, fills_owed, FillFit, Ledger}
use dutch_auction.Core.Backing.Moves.{release-Holds, sub_exact}
use dutch_auction.Core.Backing.Settled.{mul_mono, IsFit-mono, drain_resting-Ledger}

-- The fills are at `price` or above.
abbrev pub IsAbove : Price → Fill → Type 0
IsAbove price f = pos_part price ≤ pos_part f.price

freed_price :
    (from price : Price)
    → neg_part from ≡ 0
    → neg_part price ≡ 0
    → pos_part price ≤ pos_part from
    → pos_part from ≤ i64_max
    → saturating_sub_i64 from price ≡ pos (pos_part from - pos_part price)
freed_price (pos n) (pos k) h h' le small = sub_exact n k le small
freed_price (negsuc n) price h h' le small = absurd (omega arith)
freed_price (pos n) (negsuc k) h h' le small = absurd (omega arith)

owes_less :
    (p who : ParticipantId) (from price : Price) (qty : Qty)
    → pos_part price ≤ pos_part from
    → owes p who (pos (pos_part from - pos_part price)) qty + owes p who price qty
      ≡ owes p who from qty
unfolding owes
owes_less p who from price qty le = elim (Bool-cases (who == p)) [
  | inl e ↦ rw e (
      let whole : pos_part from ≡ pos_part from - pos_part price + pos_part price = omega arith in
      omega (arith, ap (λ (n : ℕ). n * qty) whole))
  | inr e ↦ rw e (omega arith)
]

module _ (p : ParticipantId) (cap : ℕ) (big : cap ≤ i64_max) where
  -- After a fill is repriced: what it is owed for now, backed, beside `n` more.
  abbrev Repriced : ℕ → ℕ → Fill × Out → Type 0
  Repriced before n r =
      Holds p cap (owes p r.0.participant r.0.price r.0.qty + n) r.1.state.collateral
      × FillFit r.0
      × (owes p r.0.participant r.0.price r.0.qty ≤ before)

  reprice_fill-Repriced :
      (price : Price) (f : Fill) (o : Out) (n : ℕ)
      → neg_part price ≡ 0
      → FillFit f
      → IsAbove price f
      → owes p f.participant f.price f.qty + n ≤ i64_max
      → Holds p cap (owes p f.participant f.price f.qty + n) o.state.collateral
      → Repriced (owes p f.participant f.price f.qty) n (reprice_fill price f o)
  unfolding reprice_fill push_event
  reprice_fill-Repriced price f o n signless (fit, some_qty) above room v =
      if_cases (Repriced (owes p f.participant f.price f.qty) n) (eq_ℤ f.price price) _ _
        (λ _. (v, (fit, some_qty), omega arith))
        λ _.
          let small : pos_part f.price ≤ i64_max = omega (
            arith,
            fit.small_cost,
            mul_mono (pos_part f.price) (pos_part f.price) 1 f.qty (omega arith) some_qty,
          ) in
          let less = owes_less p f.participant f.price price f.qty above in
          let freed : Price = pos (pos_part f.price - pos_part price) in
          let freed_fit : IsFit freed f.qty =
            IsFit-mono freed f.price f.qty f.qty refl (omega arith) (omega arith) fit in
          let given =
            release-Holds p cap f.participant freed f.qty o.state.collateral
              (owes p f.participant price f.qty + n) freed_fit (omega (arith, less))
              (subst (λ k. Holds p cap k o.state.collateral) (omega (arith, less)) v) in
          (
            rw (freed_price f.price price fit.signless signless above small) given,
            (IsFit-mono price f.price f.qty f.qty signless above (omega arith) fit, some_qty),
            omega (arith, less),
          )

  abbrev RepricedAll : ℕ → ℕ → List Fill × Out → Type 0
  RepricedAll before n r =
      Holds p cap (fills_owed p r.0 + n) r.1.state.collateral
      × All FillFit r.0
      × (fills_owed p r.0 ≤ before)

  reprice_all-RepricedAll :
      (price : Price) (fs : List Fill) (o : Out) (n : ℕ)
      → neg_part price ≡ 0
      → All FillFit fs
      → All (IsAbove price) fs
      → fills_owed p fs + n ≤ i64_max
      → Holds p cap (fills_owed p fs + n) o.state.collateral
      → RepricedAll (fills_owed p fs) n (reprice_all price fs o)
  unfolding reprice_all
  reprice_all-RepricedAll price [] o n signless fit above room v = (v, tt, omega arith)
  reprice_all-RepricedAll price (f ∷ fs) o n signless fit above room v =
      let (held, good, less) =
        reprice_fill-Repriced price f o (fills_owed p fs + n) signless fit.0 above.0
          (omega (arith, room)) (subst (λ k. Holds p cap k o.state.collateral) (omega arith) v) in
      let r : Fill × Out = reprice_fill price f o in
      let m : ℕ = owes p r.0.participant r.0.price r.0.qty + n in
      let (helds, goods, lesses) =
        reprice_all-RepricedAll price fs r.1 m signless fit.1 above.1 (omega (arith, room, less))
          (subst (λ k. Holds p cap k r.1.state.collateral) (omega arith) held) in
      (
        subst (λ k. Holds p cap k (reprice_all price fs r.1).1.state.collateral) (omega arith)
            helds,
        (good, goods),
        omega (arith, less, lesses),
      )

  reprice_fill-resting :
      (price : Price) (f : Fill) (o : Out)
      → (reprice_fill price f o).1.state.resting ≡ o.state.resting
  unfolding reprice_fill push_event
  reprice_fill-resting price f o =
      if_cases (λ (r : Fill × Out). r.1.state.resting ≡ o.state.resting) (eq_ℤ f.price price) _ _
        (λ _. refl) (λ _. refl)

  reprice_all-resting :
      (price : Price) (fs : List Fill) (o : Out)
      → (reprice_all price fs o).1.state.resting ≡ o.state.resting
  unfolding reprice_all
  reprice_all-resting price [] o = refl
  reprice_all-resting price (f ∷ fs) o =
      reprice_all-resting price fs (reprice_fill price f o).1 ∙ reprice_fill-resting price f o

  pub clear-Ledger :
      (price : Price) (o : Out)
      → neg_part price ≡ 0
      → All (IsAbove price) o.state.fills
      → Ledger p cap 0 o.state
      → Ledger p cap 0 (clear price o).state
  unfolding clear reprice_fills announce_cleared push_event
  clear-Ledger price o signless above v =
      let s = o.state in
      let ended : Out = record o {
        state = record s { status = Status.cleared; clearing_price = some price };
      } in
      let r : List Fill × Out = reprice_all price s.fills ended in
      let rested : r.1.state.resting ≡ s.resting = reprice_all-resting price s.fills ended in
      let l : ℕ = ladder_owed p s.resting.levels in
      let (held, good, less) =
        reprice_all-RepricedAll price s.fills ended l signless v.fills_fit above
          (omega (arith, v.within, big))
          (subst (λ k. Holds p cap k s.collateral) (omega arith) v.holds) in
      drain_resting-Ledger p cap big RejectReason.unfilled (reprice_fills price ended) 0 (record {
        holds = rw rested (subst (λ k. Holds p cap k r.1.state.collateral) (omega arith) held);
        within = rw rested (omega (arith, v.within, less));
        ladder_fit = rw rested v.ladder_fit;
        fills_fit = good;
      })
