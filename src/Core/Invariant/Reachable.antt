-- ===== src/Core/Invariant/Reachable.antt =====
-- docs/invariants.md, I1 to I3, of every state that commands can bring an auction to.
use dutch_auction.Base.{
  ◌≤◌, ◌≡◌, refl, ◌∙◌, arith, List, Option, some, none, Bool, true, false, max, if◌then◌else◌,
  subst,
}
use dutch_auction.Base.Word.{u64_max}
use dutch_auction.Proto.Ids.{Seq}
use dutch_auction.Proto.Money.{Price}
use dutch_auction.Proto.Time.{Nanos}
use dutch_auction.Proto.Status.{Status, pending, live, cleared, cancelled}
use dutch_auction.Core.Config.{AuctionConfig}
use dutch_auction.Core.Command.{Command}
use dutch_auction.Core.Event.{Fill}
use dutch_auction.Core.Bid.{OpenWindow}
use dutch_auction.Core.State.{AuctionState, Out, new_state}
use dutch_auction.Core.Apply.{apply, begin, close_elapsed_window, handle, follows}
use dutch_auction.Core.Invariant.{IsSound, IsWindowed, IsClockPrice, IsSettled}
use dutch_auction.Core.Invariant.Clock.{handle-SameClock}
use dutch_auction.Core.Invariant.Bids.{Sound}
use dutch_auction.Core.Invariant.Handlers.{
  handle-IsSound, close_elapsed_window-IsSound, close_elapsed_window-SameClock,
}

-- The states that `apply` can bring a new auction to.
pub data Reach (config : AuctionConfig) : AuctionState → Type 0 where
  created : Reach config (new_state config)
  applied :
      {s : AuctionState} {o : Out} (seq : Seq) (ts : Nanos) (cmd : Command)
      → Reach config s
      → apply s seq ts cmd ≡ some o
      → Reach config o.state

-- A guarded result is there only if the guard holds.
guarded {ℓ} :
    {A : Type ℓ} (b : Bool) {x y : A} → (if b then some x else none) ≡ some y → (b ≡ true) × (x ≡ y)
guarded true {x} {y} e = (refl, cc)
guarded false {x} {y} e = cc

-- What an `apply` that does not panic computes.
pub apply_inv :
    (s : AuctionState) (seq : Seq) (ts : Nanos) (cmd : Command) {o : Out}
    → apply s seq ts cmd ≡ some o
    → (follows s.last_seq seq ≡ true)
      × (handle cmd seq (max ts s.now) (close_elapsed_window (max ts s.now) (begin seq ts s)) ≡ o)
unfolding apply
apply_inv s seq ts cmd e = guarded (follows s.last_seq seq) e

IsClockPrice-later :
    (c : AuctionConfig) (m n : Nanos) (p : Price) → m ≤ n → IsClockPrice c m p → IsClockPrice c n p
IsClockPrice-later c m n p h (t, le, e) = (t, omega arith, e)

IsSettled-later :
    (c : AuctionConfig) (m n : Nanos) (st : Status) (p : Option Price) (fills : List Fill)
    → m ≤ n
    → IsSettled c m st p fills
    → IsSettled c n st p fills
IsSettled-later c m n pending p fills h v = v
IsSettled-later c m n live p fills h v = v
IsSettled-later c m n cancelled p fills h v = v
IsSettled-later c m n cleared none fills h v = v
IsSettled-later c m n cleared (some p) fills h v = (v.0, IsClockPrice-later c m n p h v.1)

IsWindowed-later :
    (c : AuctionConfig) (m n : Nanos) (w : Option OpenWindow)
    → m ≤ n
    → IsWindowed c m w
    → IsWindowed c n w
IsWindowed-later c m n none h v = v
IsWindowed-later c m n (some w) h (t, le, e, e') = (t, omega arith, e, e')

pub begin-IsSound : (seq : Seq) (ts : Nanos) (s : AuctionState) → IsSound s → Sound (begin seq ts s)
unfolding begin
begin-IsSound seq ts s v = record {
  small = v.small;
  conserved = v.conserved;
  settled =
      IsSettled-later s.config s.now (max ts s.now) s.status s.clearing_price s.fills (omega arith)
        v.settled;
  windowed = IsWindowed-later s.config s.now (max ts s.now) s.window (omega arith) v.windowed;
  supplied = v.supplied;
  untouched = v.untouched;
}

-- One `apply` of a sound state: the new state is sound, has the same terms, the sequence number and
-- the clock of the command.
pub record Applied (seq : Seq) (ts : Nanos) (s t : AuctionState) : Type 0 where
  pub sound : IsSound t
  pub config : t.config ≡ s.config
  pub last_seq : t.last_seq ≡ some seq
  pub now : t.now ≡ max ts s.now

pub apply-Applied :
    (s : AuctionState) (seq : Seq) (ts : Nanos) (cmd : Command) {o : Out}
    → apply s seq ts cmd ≡ some o
    → IsSound s
    → Applied seq ts s o.state
unfolding begin
apply-Applied s seq ts cmd {o} e v =
    let begun : Out = begin seq ts s in
    let closed : Out = close_elapsed_window (max ts s.now) begun in
    let fresh = begin-IsSound seq ts s v in
    let sound = close_elapsed_window-IsSound (max ts s.now) begun fresh in
    let c = close_elapsed_window-SameClock (max ts s.now) begun fresh in
    let in_time : max ts s.now ≤ closed.state.now = omega (arith, c.now) in
    let h = handle-SameClock cmd seq (max ts s.now) closed in_time sound in
    let same : handle cmd seq (max ts s.now) closed ≡ o = (apply_inv s seq ts cmd e).1 in
    subst (λ (r : Out). Applied seq ts s r.state) same
      (record {
        sound = handle-IsSound cmd seq (max ts s.now) closed in_time sound;
        config = h.config ∙ c.config;
        last_seq = h.last_seq ∙ c.last_seq;
        now = h.now ∙ c.now;
      })

pub new_state-IsSound :
    (config : AuctionConfig) → config.total_supply ≤ u64_max → IsSound (new_state config)
unfolding new_state
new_state-IsSound config h = record {
  small = h;
  conserved = omega arith;
  settled = refl;
  windowed = tt;
  supplied = λ e. cc;
  untouched = λ _. refl;
}

-- Every reachable state is sound, and has the terms that the auction was created with.
pub Reach-IsSound :
    {config : AuctionConfig} {s : AuctionState}
    → config.total_supply ≤ u64_max
    → Reach config s
    → IsSound s × (s.config ≡ config)
unfolding new_state
Reach-IsSound {config} h Reach.created = (new_state-IsSound config h, refl)
Reach-IsSound {config} h (Reach.applied {s} seq ts cmd r e) =
    let (sound, same) = Reach-IsSound h r in
    let a = apply-Applied s seq ts cmd e sound in (a.sound, a.config ∙ same)
