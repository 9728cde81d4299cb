-- ===== src/Tag/Store/Execution.antt =====
-- Executions of the store of backend/internal/tag/value_store.go.
use iot_edge.Prelude.{ℕ, List, [], ◌∷◌, ◌++◌, Result, ok, err}
use iot_edge.Value.Float.{Arithmetic}
use iot_edge.Tag.Store.{TagValue, StoreError, Store, put}
use iot_edge.Tag.Store.Subscribing.{subscribe_latest, subscribe_values, unsubscribe, receive_value}

pub data Operation : Type 0 where
  puts : (now : ℕ) → TagValue → Operation
  subscribes : List ℕ → Operation
  subscribes_values : List ℕ → (after : ℕ) → Operation
  unsubscribes receives : ℕ → Operation

abbrev pub stored_of : Store → Result StoreError (TagValue × Store) → Store
stored_of store (ok (entry, next)) = next
stored_of store (err e) = store

abbrev pub entries_of : Result StoreError (TagValue × Store) → List TagValue
entries_of (ok (entry, next)) = entry ∷ []
entries_of (err e) = []

module _ (arithmetic : Arithmetic) where
  abbrev pub step : Store → Operation → Store
  step store (puts now entry) = stored_of store (put arithmetic now entry store)
  step store (subscribes ids) = subscribe_latest ids store
  step store (subscribes_values ids after) = (subscribe_values ids after store).1
  step store (unsubscribes i) = unsubscribe i store
  step store (receives i) = receive_value i store

  -- The value that an operation stores, if any.
  abbrev pub stores : Store → Operation → List TagValue
  stores store (puts now entry) = entries_of (put arithmetic now entry store)
  stores store _ = []

  abbrev pub execute : Store → List Operation → Store
  execute store [] = store
  execute store (op ∷ ops) = execute (step store op) ops

  -- The values that an execution stores, in order.
  abbrev pub log : Store → List Operation → List TagValue
  log store [] = []
  log store (op ∷ ops) = stores store op ++ log (step store op) ops
