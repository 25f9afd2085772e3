-- ===== src/Engine/Acks/Backed.antt =====
-- crates/auction-engine/src/engine.rs, `run_acks`: what is told, in which order, and on what grounds.
use dutch_auction.Base.{ℕ, ◌≡◌, ◌⊎◌, List, [], ◌∷◌, ◌++◌, Bool, true, false, All}
use dutch_auction.Wal.Commit.{released, wait_for}
use dutch_auction.Engine.Run.{View, Pending}
use dutch_auction.Engine.Acks.{Ack, Sequenced, Acks, sequenced, reply_to, shown, Round}

-- One of the rounds is so.
abbrev pub Any : (Round → Type 0) → List Round → Type 0
Any P [] = ⊥
Any P (round ∷ rounds) = P round ⊎ Any P rounds

-- The wait for the command returned with success in some round, and then the standby confirmed it,
-- unless it does not count or is lost.
abbrev pub BackedBy : Bool → Bool → Pending → Round → Type 0
BackedBy gated lost p round =
    (wait_for p.seq round.0 ≡ released) × ((gated ≡ false) ⊎ ((round.1 ≡ true) ⊎ (lost ≡ true)))

abbrev pub Backed : Bool → Bool → List Round → Pending → Type 0
Backed gated lost rounds p = Any (BackedBy gated lost p) rounds

abbrev pub all_sequenced : List Pending → List Sequenced
all_sequenced [] = []
all_sequenced (p ∷ ps) = sequenced p ++ all_sequenced ps

abbrev pub all_replies : List Pending → List (ℕ × Ack)
all_replies [] = []
all_replies (p ∷ ps) = reply_to p ++ all_replies ps

abbrev pub last_view : View → List Pending → View
last_view v [] = v
last_view v (p ∷ ps) = last_view (shown p.view v) ps

-- What the thread did with the commands `answered` from the state `t`.
pub record Answered (gated : Bool) (pendings : List Pending) (rounds : List Round) (t t' : Acks)
    : Type 0 where
  pub answered : List Pending
  pub unanswered : List Pending
  pub split : pendings ≡ answered ++ unanswered
  pub broadcast : t'.broadcast ≡ t.broadcast ++ all_sequenced answered
  pub replies : t'.replies ≡ t.replies ++ all_replies answered
  pub view : t'.view ≡ last_view t.view answered
  pub backed : All (Backed gated t'.replica_lost rounds) answered
