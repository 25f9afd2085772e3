-- ===== src/Core/State/Terms.antt =====
-- What the operations on collateral, outcomes and events leave alone.
use dutch_auction.Base.{◌≡◌, refl, ◌∙◌, arith}
use dutch_auction.Core.State.{AuctionState, Out, push_event, set_outcome, reject, give_back}
use dutch_auction.Core.Ladder.{PriceLadder}
use dutch_auction.Proto.Ids.{ParticipantId, IdempotencyKey}
use dutch_auction.Proto.Money.{Price, Qty}
use dutch_auction.Proto.Status.{RejectReason}

-- The parts of the state that matching one bid does not touch.
pub record SameTerms (s t : AuctionState) : Type 0 where
  pub config : t.config ≡ s.config
  pub status : t.status ≡ s.status
  pub supply_remaining : t.supply_remaining ≡ s.supply_remaining
  pub clearing_price : t.clearing_price ≡ s.clearing_price
  pub window : t.window ≡ s.window
  pub last_seq : t.last_seq ≡ s.last_seq
  pub now : t.now ≡ s.now

pub SameTerms-refl : (s : AuctionState) → SameTerms s s
SameTerms-refl s = ground arith

pub SameTerms-trans : {s t u : AuctionState} → SameTerms s t → SameTerms t u → SameTerms s u
SameTerms-trans p q = record {
  config = q.config ∙ p.config;
  status = q.status ∙ p.status;
  supply_remaining = q.supply_remaining ∙ p.supply_remaining;
  clearing_price = q.clearing_price ∙ p.clearing_price;
  window = q.window ∙ p.window;
  last_seq = q.last_seq ∙ p.last_seq;
  now = q.now ∙ p.now;
}

-- As `SameTerms`, and the fills stay too.
pub record SameFills (s t : AuctionState) : Type 0 where
  pub terms : SameTerms s t
  pub open terms use *
  pub fills : t.fills ≡ s.fills

pub SameFills-refl : (s : AuctionState) → SameFills s s
SameFills-refl s = record { terms = SameTerms-refl s; fills = refl }

pub SameFills-trans : {s t u : AuctionState} → SameFills s t → SameFills t u → SameFills s u
SameFills-trans p q = record { terms = SameTerms-trans p.terms q.terms; fills = q.fills ∙ p.fills }

pub give_back-SameFills :
    (participant : ParticipantId) (price : Price) (qty : Qty) (key : IdempotencyKey)
    (reason : RejectReason) (o : Out)
    → SameFills o.state (give_back participant price qty key reason o).state
unfolding give_back reject push_event set_outcome
give_back-SameFills participant price qty key reason o = record {
  terms = record {
    config = refl;
    status = refl;
    supply_remaining = refl;
    clearing_price = refl;
    window = refl;
    last_seq = refl;
    now = refl;
  };
  fills = refl;
}

pub reject-SameFills :
    (key : IdempotencyKey) (reason : RejectReason) (o : Out)
    → SameFills o.state (reject key reason o).state
unfolding reject push_event set_outcome
reject-SameFills key reason o = record {
  terms = record {
    config = refl;
    status = refl;
    supply_remaining = refl;
    clearing_price = refl;
    window = refl;
    last_seq = refl;
    now = refl;
  };
  fills = refl;
}

pub with_resting-SameFills :
    (s : AuctionState) (l : PriceLadder) → SameFills s (record s { resting = l })
with_resting-SameFills s l = record {
  terms = record {
    config = refl;
    status = refl;
    supply_remaining = refl;
    clearing_price = refl;
    window = refl;
    last_seq = refl;
    now = refl;
  };
  fills = refl;
}
