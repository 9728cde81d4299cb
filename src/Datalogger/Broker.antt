-- ===== src/Datalogger/Broker.antt =====
-- backend/internal/datalogger/committed_batches.go: `CommittedBatchBroker`. Each operation holds the
-- broker's lock, so an execution is a sequence of operations. Subscriptions are told apart by their
-- place in the order of creation; `listed` is membership in the broker's set. A channel is its
-- buffer, the oldest batch first: a send succeeds while there is room.
pub mod Delivery
pub mod Bounds
use iot_edge.Prelude.{
  update, ℕ, zero, suc, ◌+◌, Bool, true, false, Option, none, some, List, [], ◌∷◌, ◌++◌, map,
  length, get_elem?, ltb, ◌==◌, if◌then◌else◌, Result, ok, err, ◌&&◌, ◌>>=◌, ℤ, pos, negsuc,
}
use iot_edge.Datalogger.Batch.{RawBatch, valid_committed_batch, clone_raw_batch}

pub record Subscription : Type 0 where
  pub logger_id : ℕ
  pub capacity : ℕ
  pub events : List RawBatch
  pub lagged : Bool
  pub closed : Bool
  pub listed : Bool

pub record Broker : Type 0 where
  pub buffer_size : ℕ
  pub subscriptions : List Subscription

pub data BrokerError : Type 0 where
  invalid_input : BrokerError

-- `WithCommittedBatchBuffer`, and `NewCommittedBatchBroker` with such options or none.
unfoldable pub with_buffer : Option ℤ → Result BrokerError ℕ
with_buffer none = ok 64
with_buffer (some (negsuc n)) = err invalid_input
with_buffer (some (pos size)) = if ltb size 1 then err invalid_input else ok size

unfoldable pub new_broker : Option ℤ → Result BrokerError Broker
unfolding with_buffer
new_broker option =
    with_buffer option >>= λ size. ok (record { buffer_size = size; subscriptions = [] })

unfoldable pub subscribe : ℕ → Broker → Result BrokerError Broker
subscribe logger_id b =
    if logger_id == 0
    then err invalid_input
    else (let size = if ltb b.buffer_size 1 then 64 else b.buffer_size in
        ok (record {
          buffer_size = size;
          subscriptions =
              b.subscriptions
              ++ record {
                logger_id = logger_id;
                capacity = size;
                events = [];
                lagged = false;
                closed = false;
                listed = true;
              }
                ∷ [];
        }))

unfoldable pub close_subscription_locked : Subscription → Subscription
close_subscription_locked s = if s.closed then s else record s { closed = true; listed = false }

-- One round of the loop over subscribers; those that are not listed are not visited.
unfoldable pub offer : RawBatch → Subscription → Subscription
unfolding close_subscription_locked
offer batch s =
    if s.listed && (s.logger_id == batch.logger_id)
    then (if ltb (length s.events) s.capacity
        then record s { events = s.events ++ clone_raw_batch batch ∷ [] }
        else close_subscription_locked (record s { lagged = true }))
    else s

unfoldable pub publish_committed_batch : RawBatch → Broker → Broker
unfolding offer
publish_committed_batch batch b =
    if valid_committed_batch batch
    then record b { subscriptions = map (offer (clone_raw_batch batch)) b.subscriptions }
    else b

-- `Close`
unfoldable pub close : ℕ → Broker → Broker
unfolding close_subscription_locked
close i b = record b { subscriptions = update i close_subscription_locked b.subscriptions }

-- What a receive from the channel takes, and what it leaves.
abbrev pub first_of : List RawBatch → List RawBatch
first_of [] = []
first_of (batch ∷ events) = batch ∷ []

abbrev pub rest_of : List RawBatch → List RawBatch
rest_of [] = []
rest_of (batch ∷ events) = events

abbrev pub drain : Subscription → Subscription
drain s = record s { events = rest_of s.events }

unfoldable pub receive : ℕ → Broker → Broker
receive i b = record b { subscriptions = update i drain b.subscriptions }

pub data Operation : Type 0 where
  subscribes : (logger_id : ℕ) → Operation
  publishes : RawBatch → Operation
  closes receives : ℕ → Operation

abbrev pub keep_broker : Broker → Result BrokerError Broker → Broker
keep_broker b (ok c) = c
keep_broker b (err e) = b

abbrev pub step : Broker → Operation → Broker
step b (subscribes logger_id) = keep_broker b (subscribe logger_id b)
step b (publishes batch) = publish_committed_batch batch b
step b (closes i) = close i b
step b (receives i) = receive i b

abbrev pub execute : Broker → List Operation → Broker
execute b [] = b
execute b (op ∷ ops) = execute (step b op) ops
