-- ===== src/Tag/Store/Tests.antt =====
-- The store of backend/internal/tag/value_store.go on concrete values.
use iot_edge.Prelude.{
  ℕ, ◌≡◌, ◌<◌, ◌↔◌, refl, true, false, ◌||◌, none, some, List, [], ◌∷◌, ◌++◌, ok, err, pos, ℤ,
  replicate, last_n, last_of, get_elem?, All, arith, ◌+◌,
}
use iot_edge.Value.{DataType, Value, HasType}
use iot_edge.Value.Float.{Arithmetic, is_nan32}
use iot_edge.Datalogger.Batch.{Quality, member}
use iot_edge.Tag.Coerce.{coerce_tag_value}
use iot_edge.Tag.Coerce.Range.{NarrowLaw, coerce_tag_value-HasType}
use iot_edge.Tag.Store.{
  TagValue, tag_value_not_found, Store, Subscriber, new_memory_value_store, put, is_all, filter_of,
  history_limit,
}
use iot_edge.Tag.Store.Reading.{latest_of, history_of, effective_limit, snapshot_of, resolve_value}
use iot_edge.Tag.Store.Restoring.{restore_latest, normalize_restored}
use iot_edge.Tag.Store.Subscribing.{subscribe_latest, subscribe_values, receive_value}
use iot_edge.Tag.Store.Execution.{Operation, puts, subscribes_values, receives, execute, log}
use iot_edge.Tag.Store.Refinement.{of_tag}
use iot_edge.Tag.Store.Restored.{restore_latest-IsLog}
use iot_edge.Tag.Store.Numbering.{IsNormal, IsNumbered, log-IsNormal, log-IsNumbered}
use iot_edge.Tag.Store.Streams.{wanted, received}
use iot_edge.Tag.Store.Delivery.{subscribe_values-delivered}
use iot_edge.Tag.Store.Newest.{subscribe_latest-newest}
use iot_edge.Tag.Store.Replay.{subscribe_values-replay}
use iot_edge.Tag.Store.Replay.Sorting.{Among, IsSorted}
use iot_edge.Tag.Store.Typed.{resolve_value-HasType, resolve_value-snapshot_of}

-- An arithmetic of which the store uses `of_int`, `widen` and `narrow`.
abbrev bits : Arithmetic
bits = record {
  add = λ a b. a;
  sub = λ a b. a;
  mul = λ a b. a;
  div = λ a b. a;
  fmod = λ a b. a;
  of_int = λ z. 0;
  widen = λ a. a;
  narrow = λ a. 0;
  trunc = λ a. a;
  to_int = λ a. pos 0;
  parse_float = λ t. none;
}

bits_law : NarrowLaw bits
unfolding is_nan32
bits_law b number = refl

-- A reading of a tag; 0x4014000000000000 is 5.0.
abbrev reading : ℕ → ℕ → TagValue
reading id at = record {
  tag_id = id;
  sequence = 0;
  observed_at = at;
  stored_at = 0;
  quality = Quality.good;
  data_type = DataType.int16;
  value = Value.float64 0x4014000000000000;
  error = [];
}

abbrev saved : TagValue
saved = record (reading 7 50) { sequence = 41; stored_at = 51 }

abbrev saved_store : Store
saved_store = record {
  sequence = 41;
  latest = (7, record saved { value = Value.int16 (pos 5) }) ∷ [];
  history = (7, record saved { value = Value.int16 (pos 5) } ∷ []) ∷ [];
  subscribers = [];
}

saved_restored : restore_latest bits (saved ∷ []) new_memory_value_store ≡ ok saved_store
unfolding restore_latest
saved_restored = refl

abbrev work : List Operation
work =
    puts 100 (reading 7 99)
    ∷ subscribes_values (7 ∷ []) 41
    ∷ puts 110 (reading 8 109)
    ∷ puts 120 (reading 7 119)
    ∷ receives 0
    ∷ []

coerce_tag_value-HasType_example : HasType DataType.int16 (Value.int16 (pos 5))
unfolding coerce_tag_value
coerce_tag_value-HasType_example =
    coerce_tag_value-HasType bits DataType.int16 (Value.float64 0x4014000000000000) bits_law refl

restore_latest-IsLog_example :
    (entries : List TagValue) × (normalize_restored bits [] (saved ∷ []) ≡ ok entries)
    × ((id : ℕ) (limit : ℤ)
        → (history_of id limit (execute bits saved_store work)
            ≡ last_n (effective_limit limit) (of_tag id (entries ++ log bits saved_store work)))
          × (latest_of id (execute bits saved_store work)
              ≡ last_of (of_tag id (entries ++ log bits saved_store work))))
restore_latest-IsLog_example =
    restore_latest-IsLog bits (saved ∷ []) saved_store work saved_restored

log-IsNormal_example : All IsNormal (log bits saved_store work)
log-IsNormal_example = log-IsNormal bits saved_store work bits_law

log-IsNumbered_example : IsNumbered 41 (log bits saved_store work)
log-IsNumbered_example = log-IsNumbered bits saved_store work (omega arith)

subscribe_values-delivered_example :
    (s : Subscriber) × (get_elem?
        (execute bits (subscribe_values (7 ∷ []) 41 saved_store).1 work).subscribers
        0
      ≡ some s)
    × (s.closed ≡ false
        → received bits 0 (subscribe_values (7 ∷ []) 41 saved_store).1 work ++ s.stream
          ≡ wanted
              (filter_of (7 ∷ []))
              (log bits (subscribe_values (7 ∷ []) 41 saved_store).1 work))
subscribe_values-delivered_example = subscribe_values-delivered bits (7 ∷ []) 41 saved_store work

abbrev waiting : Store
waiting = execute bits (subscribe_latest (7 ∷ []) saved_store) work

abbrev last_entry : TagValue
last_entry = record (reading 7 129) { sequence = 45; stored_at = 130; value = Value.int16 (pos 5) }

abbrev next_store : Store
next_store = execute bits waiting (puts 130 (reading 7 129) ∷ [])

put_last : put bits 130 (reading 7 129) waiting ≡ ok (last_entry, next_store)
unfolding put subscribe_latest subscribe_values receive_value
put_last = refl

subscribe_latest-newest_example :
    last_of (received bits 0 next_store (replicate (history_limit + 1) (receives 0)))
    ≡ some last_entry
subscribe_latest-newest_example =
    subscribe_latest-newest bits (7 ∷ []) saved_store work 130 (reading 7 129) last_entry next_store
      tt put_last refl

subscribe_values-replay_example :
    IsSorted (subscribe_values (7 ∷ []) 41 (execute bits saved_store work)).0
    × ((entry : TagValue)
        → Among entry (subscribe_values (7 ∷ []) 41 (execute bits saved_store work)).0 ↔ (
            (latest_of entry.tag_id (execute bits saved_store work) ≡ some entry)
            × (41 < entry.sequence)
            × (is_all (filter_of (7 ∷ [])) || member entry.tag_id (filter_of (7 ∷ [])) ≡ true)))
subscribe_values-replay_example =
    subscribe_values-replay bits (saved ∷ []) saved_store work (7 ∷ []) 41 saved_restored

resolve_value-snapshot_of_example :
    resolve_value false 9 (snapshot_of (7 ∷ []) saved_store) ≡ err tag_value_not_found
resolve_value-snapshot_of_example = resolve_value-snapshot_of false 9 (7 ∷ []) saved_store

resolved_five :
    resolve_value false 7 (snapshot_of (7 ∷ []) (execute bits saved_store work))
    ≡ ok (Value.int16 (pos 5))
unfolding resolve_value snapshot_of put subscribe_values receive_value
resolved_five = refl

resolve_value-HasType_example :
    (entry : TagValue) × (latest_of 7 (execute bits saved_store work) ≡ some entry)
    × (entry.quality ≡ Quality.good)
    × (entry.value ≡ Value.int16 (pos 5))
    × HasType entry.data_type (Value.int16 (pos 5))
resolve_value-HasType_example =
    resolve_value-HasType bits (saved ∷ []) saved_store work false 7 (7 ∷ []) (Value.int16 (pos 5))
      bits_law saved_restored resolved_five
