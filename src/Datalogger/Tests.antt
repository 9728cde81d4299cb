-- ===== src/Datalogger/Tests.antt =====
-- Runs of the broker of committed batches and of the interval scheduler, and the theorems at them.
use iot_edge.Prelude.{
  ℕ, ◌≡◌, refl, Bool, true, false, some, List, [], ◌∷◌, ◌++◌, get_elem?, All, pos, ok, ◌≤◌, ◌<◌,
  ◌+◌, arith,
}
use iot_edge.Value.{DataType, Value}
use iot_edge.Value.Text.{codes, trim_space}
use iot_edge.Datalogger.Batch.{
  Quality, RawSample, RawBatch, valid_committed_batch, clone_raw_batch, valid_committed_batch-clone,
}
use iot_edge.Datalogger.Broker.{
  Subscription, Broker, new_broker, subscribe, publish_committed_batch, receive, Operation,
  subscribes, publishes, closes, receives, execute,
}
use iot_edge.Datalogger.Interval.{
  Logger, IntervalConfig, validate_interval_logger, next_interval_run, latest_interval_run, Round,
  wakes, run,
}
use iot_edge.Datalogger.Interval.Grid.{IsDue, next_interval_run-first, latest_interval_run-latest}
use iot_edge.Datalogger.Interval.Rounds.{IsSchedule, IsCaptured, run-IsSchedule}
use iot_edge.Datalogger.Broker.Delivery.{committed, received}
use iot_edge.Datalogger.Broker.Delivery.Subscriber.{IsStream, subscribe-delivered}
use iot_edge.Datalogger.Broker.Bounds.{IsSound, broker-IsSound}

abbrev good_sample : RawSample
good_sample = record {
  tag_id = 8;
  observed_at = 100;
  data_type = DataType.uint16;
  value = Value.uint16 3;
  quality = Quality.good;
  error = [];
}

abbrev bad_sample : RawSample
bad_sample = record {
  tag_id = 9;
  observed_at = 100;
  data_type = DataType.bool;
  value = Value.nil;
  quality = Quality.bad;
  error = codes " offline ";
}

abbrev batch : ℕ → RawBatch
batch at = record { logger_id = 5; batch_at = at; samples = good_sample ∷ bad_sample ∷ [] }

abbrev twice : RawBatch
twice = record { logger_id = 5; batch_at = 7; samples = good_sample ∷ good_sample ∷ [] }

batch_valid : valid_committed_batch (batch 7) ≡ true
unfolding valid_committed_batch trim_space
batch_valid = refl

twice_invalid : valid_committed_batch twice ≡ false
unfolding valid_committed_batch
twice_invalid = refl

abbrev empty_broker : Broker
empty_broker = record { buffer_size = 1; subscriptions = [] }

empty_broker_made : new_broker (some (pos 1)) ≡ ok empty_broker
unfolding new_broker
empty_broker_made = refl

abbrev one_subscriber : Broker
one_subscriber = record {
  buffer_size = 1;
  subscriptions =
      record {
        logger_id = 5;
        capacity = 1;
        events = [];
        lagged = false;
        closed = false;
        listed = true;
      }
      ∷ [];
}

subscribed : subscribe 5 empty_broker ≡ ok one_subscriber
unfolding subscribe
subscribed = refl

-- The first batch is received, the second held, the third makes the subscriber lag.
abbrev operations : List Operation
operations =
    publishes (batch 7)
    ∷ receives 0
    ∷ publishes (batch 8)
    ∷ publishes (batch 9)
    ∷ publishes (batch 10)
    ∷ []

abbrev map_lagged : List Subscription → List Bool
map_lagged [] = []
map_lagged (s ∷ list) = s.lagged ∷ map_lagged list

lagged_after : map_lagged (execute one_subscriber operations).subscriptions ≡ true ∷ []
unfolding publish_committed_batch receive valid_committed_batch clone_raw_batch trim_space
lagged_after = refl

subscribe-delivered_example :
    (s : Subscription) × (lost : List RawBatch) × (get_elem?
        (execute one_subscriber operations).subscriptions
        0
      ≡ some s)
    × (received 0 one_subscriber operations ++ (s.events ++ lost) ≡ committed 5 operations)
    × IsStream 0 5 one_subscriber operations s lost
subscribe-delivered_example =
    subscribe-delivered 5 empty_broker one_subscriber operations subscribed

broker-IsSound_example :
    All IsSound
      (execute empty_broker (subscribes 5 ∷ publishes (batch 7) ∷ closes 0 ∷ [])).subscriptions
broker-IsSound_example =
    broker-IsSound (some (pos 1)) empty_broker (subscribes 5 ∷ publishes (batch 7) ∷ closes 0 ∷ [])
      empty_broker_made

valid_committed_batch-clone_example :
    valid_committed_batch (clone_raw_batch (batch 7)) ≡ valid_committed_batch (batch 7)
valid_committed_batch-clone_example = valid_committed_batch-clone (batch 7)

abbrev logger : Logger
logger = record {
  id = 5;
  enabled = true;
  is_interval = true;
  start_at = 1000000000;
  end_at = some 8000000000;
  config = IntervalConfig.object (some (pos 2));
  tags = record { id = 8; data_type = DataType.uint16 } ∷ [];
}

-- The wait for 3 s ends at 6.5 s, so the run of 5 s is captured, then that of 7 s.
abbrev rounds : List Round
rounds = wakes 6500000000 false ∷ wakes 7000000000 false ∷ wakes 9000000000 false ∷ []

run_times : run logger 2500000000 rounds ≡ ok (5000000000 ∷ 7000000000 ∷ [])
unfolding run
run_times = refl

run-IsSchedule_example :
    (interval : ℕ) × (validate_interval_logger logger ≡ ok interval)
    × IsSchedule 1000000000 interval (some 8000000000) 1000000000 (5000000000 ∷ 7000000000 ∷ [])
    × All (IsCaptured logger) (5000000000 ∷ 7000000000 ∷ [])
run-IsSchedule_example =
    run-IsSchedule logger 2500000000 rounds (5000000000 ∷ 7000000000 ∷ []) run_times

next_interval_run-first_example :
    IsDue 10 5 (next_interval_run 10 5 21)
    × (21 ≤ next_interval_run 10 5 21)
    × ((at : ℕ) → IsDue 10 5 at → 21 ≤ at → next_interval_run 10 5 21 ≤ at)
next_interval_run-first_example = next_interval_run-first 10 5 21 (omega arith) (omega arith)

latest_interval_run-latest_example :
    IsDue 10 5 (latest_interval_run 10 5 21)
    × (latest_interval_run 10 5 21 ≤ 21)
    × (21 < latest_interval_run 10 5 21 + 5)
latest_interval_run-latest_example =
    latest_interval_run-latest 10 5 21 (omega arith) (omega arith) (omega arith)
