-- ===== src/Datalogger/Broker/Delivery/Single.antt =====
-- An execution as one subscription sees it.
use iot_edge.Prelude.{
  get_elem?-append, get_elem?-map, get_elem?-update, ℕ, ◌≡◌, refl, ap, ap₂, Option, some, List, [],
  ◌∷◌, ◌++◌, get_elem?, ◌==◌, if◌then◌else◌, Bool-cases, inl, inr,
}
use iot_edge.Datalogger.Batch.{RawBatch, valid_committed_batch, clone_raw_batch}
use iot_edge.Datalogger.Broker.{
  Subscription, Broker, subscribe, close_subscription_locked, offer, publish_committed_batch, close,
  first_of, drain, receive, Operation, subscribes, publishes, closes, receives, step, execute,
}
use iot_edge.Datalogger.Broker.Delivery.{events_of, takes, received}

-- An operation as the i-th subscription sees it, and what its subscriber takes.
abbrev pub step_one : ℕ → Operation → Subscription → Subscription
step_one i (publishes batch) s =
    if valid_committed_batch batch then offer (clone_raw_batch batch) s else s
step_one i (closes j) s = if j == i then close_subscription_locked s else s
step_one i (receives j) s = if j == i then drain s else s
step_one i (subscribes logger_id) s = s

abbrev pub take_one : ℕ → Operation → Subscription → List RawBatch
take_one i (receives j) s = if j == i then first_of s.events else []
take_one i _ s = []

-- Each operation does to the i-th subscription what it does to it alone.
step-one :
    (i : ℕ) (b : Broker) (op : Operation) (s : Subscription)
    → get_elem? b.subscriptions i ≡ some s
    → get_elem? (step b op).subscriptions i ≡ some (step_one i op s)
unfolding subscribe publish_committed_batch close receive
step-one i b (subscribes logger_id) s h = elim (Bool-cases (logger_id == 0)) [
  | inl nil ↦ rw (nil, h)
  | inr given ↦ rw (given, get_elem?-append b.subscriptions _ i h)
]
step-one i b (publishes batch) s h = elim (Bool-cases (valid_committed_batch batch)) [
  | inl valid ↦ rw (valid, get_elem?-map b.subscriptions (offer (clone_raw_batch batch)) i h)
  | inr invalid ↦ rw (invalid, h)
]
step-one i b (closes j) s h = get_elem?-update b.subscriptions close_subscription_locked j i h
step-one i b (receives j) s h = get_elem?-update b.subscriptions drain j i h

takes-one :
    (i : ℕ) (b : Broker) (op : Operation) (s : Subscription)
    → get_elem? b.subscriptions i ≡ some s
    → takes i b op ≡ take_one i op s
takes-one i b (subscribes logger_id) s h = refl
takes-one i b (publishes batch) s h = refl
takes-one i b (closes j) s h = refl
takes-one i b (receives j) s h =
    ap (λ (o : Option Subscription). if j == i then first_of (events_of o) else []) h

abbrev pub run_one : ℕ → Subscription → List Operation → Subscription
run_one i s [] = s
run_one i s (op ∷ ops) = run_one i (step_one i op s) ops

abbrev pub received_one : ℕ → Subscription → List Operation → List RawBatch
received_one i s [] = []
received_one i s (op ∷ ops) = take_one i op s ++ received_one i (step_one i op s) ops

pub execute-one :
    (i : ℕ) (b : Broker) (ops : List Operation) (s : Subscription)
    → get_elem? b.subscriptions i ≡ some s
    → get_elem? (execute b ops).subscriptions i ≡ some (run_one i s ops)
execute-one i b [] s h = h
execute-one i b (op ∷ ops) s h =
    execute-one i (step b op) ops (step_one i op s) (step-one i b op s h)

pub received-one :
    (i : ℕ) (b : Broker) (ops : List Operation) (s : Subscription)
    → get_elem? b.subscriptions i ≡ some s
    → received i b ops ≡ received_one i s ops
received-one i b [] s h = refl
received-one i b (op ∷ ops) s h =
    ap₂ ◌++◌ (takes-one i b op s h)
      (received-one i (step b op) ops (step_one i op s) (step-one i b op s h))
