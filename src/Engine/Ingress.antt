-- ===== src/Engine/Ingress.antt =====
-- crates/auction-engine/src/ingress.rs: admission. What the bounded channel (crossbeam) says to
-- `try_send` is an argument.
use dutch_auction.Base.{ℕ, Option, none, some, List, [], ◌∷◌, ◌++◌}
use dutch_auction.Proto.Status.{RejectReason}
use dutch_auction.Core.Command.{Command}
use dutch_auction.Engine.Run.{Submission}

-- `Shed`, without messages
pub data Shed : Type 0 where
  turned_away : RejectReason → Shed
  engine_gone : Shed

unfoldable pub busy_shed : Shed
busy_shed = turned_away RejectReason.busy

pub data TrySend : Type 0 where
  sent : TrySend
  full : TrySend
  disconnected : TrySend

-- What a call returns: the receiver of the answer, named by its address, or that the command was shed.
pub data Admission : Type 0 where
  admitted : Option ℕ → Admission
  shed : Shed → Admission

unfoldable pub answer_to : TrySend → Option ℕ → Admission
unfolding busy_shed
answer_to sent address = admitted address
answer_to full address = shed busy_shed
answer_to disconnected address = shed engine_gone

-- the channel after `try_send`: a command that is shed is not queued
unfoldable pub queue_after : TrySend → Submission → List Submission → List Submission
queue_after sent submission queue = queue ++ submission ∷ []
queue_after full submission queue = queue
queue_after disconnected submission queue = queue

-- `submit`
unfoldable pub submit : ℕ → Command → TrySend → List Submission → List Submission × Admission
unfolding answer_to queue_after
submit address cmd send queue = (
  queue_after send (record { cmd = cmd; reply = some address }) queue,
  answer_to send (some address),
)

-- `submit_detached`
unfoldable pub submit_detached : Command → TrySend → List Submission → List Submission × Admission
unfolding answer_to queue_after
submit_detached cmd send queue =
    (queue_after send (record { cmd = cmd; reply = none }) queue, answer_to send none)
