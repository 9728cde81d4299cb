-- ===== src/Datalogger/Broker/Delivery.antt =====
-- What a subscriber of the broker gets, in any execution.
mod Single
mod Alone
pub mod Subscriber
use iot_edge.Prelude.{
  update, ℕ, zero, suc, ◌+◌, ◌≤◌, ◌<◌, ◌≡◌, refl, sym, ap, subst, ◌∙◌, Bool, true, false, Option,
  none, some, List, [], ◌∷◌, ◌++◌, map, length, get_elem?, ltb, ◌==◌, if◌then◌else◌, Result, ok,
  err, ◌&&◌, if-elim, Bool-cases, ◌⊎◌, inl, inr, arith, length-append,
}
use mathlib.Core.List.{append_assoc}
use iot_edge.Datalogger.Batch.{
  RawBatch, valid_committed_batch, clone_raw_batch, clone_raw_batch_idem,
}
use iot_edge.Datalogger.Broker.{
  Subscription, Broker, subscribe, close_subscription_locked, offer, publish_committed_batch, close,
  first_of, rest_of, drain, receive, Operation, subscribes, publishes, closes, receives, step,
  execute,
}

-- The batches that a logger commits in an execution, as they are handed on.
abbrev pub commits : ℕ → Operation → List RawBatch
commits logger_id (publishes batch) =
    if valid_committed_batch batch && (logger_id == batch.logger_id)
    then clone_raw_batch batch ∷ []
    else []
commits logger_id _ = []

abbrev pub committed : ℕ → List Operation → List RawBatch
committed logger_id [] = []
committed logger_id (op ∷ ops) = commits logger_id op ++ committed logger_id ops

abbrev events_of : Option Subscription → List RawBatch
events_of none = []
events_of (some s) = s.events

-- What the i-th subscriber has received in an execution.
abbrev pub takes : ℕ → Broker → Operation → List RawBatch
takes i b (receives j) = if j == i then first_of (events_of (get_elem? b.subscriptions i)) else []
takes i b _ = []

abbrev pub received : ℕ → Broker → List Operation → List RawBatch
received i b [] = []
received i b (op ∷ ops) = takes i b op ++ received i (step b op) ops
