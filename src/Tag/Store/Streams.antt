-- ===== src/Tag/Store/Streams.antt =====
-- An execution of the store of backend/internal/tag/value_store.go as one subscriber sees it.
use iot_edge.Prelude.{
  ℕ, ◌≡◌, refl, ap, ◌||◌, Option, none, some, List, [], ◌∷◌, ◌++◌, ◌==◌, if◌then◌else◌, Result, ok,
  err, get_elem?, get_elem?-append, get_elem?-map, get_elem?-update, Bool-cases, inl, inr,
}
use iot_edge.Value.Float.{Arithmetic}
use iot_edge.Datalogger.Batch.{member}
use iot_edge.Tag.Store.{
  TagValue, StoreError, Store, Subscriber, is_all, notify, close_subscriber, put, put_normalized,
  stamp, store_entry, normalize_tag_value,
}
use iot_edge.Tag.Store.Subscribing.{
  subscribe_latest, subscribe_values, unsubscribe, receive_value, take_value,
}
use iot_edge.Tag.Store.Execution.{
  Operation, puts, subscribes, subscribes_values, unsubscribes, receives, step, stores, stored_of,
  entries_of,
}

-- The values of a list that a filter lets through.
abbrev pub wanted : List ℕ → List TagValue → List TagValue
wanted ids [] = []
wanted ids (entry ∷ entries) =
    let rest = wanted ids entries in
    if is_all ids || member entry.tag_id ids then entry ∷ rest else rest

pub wanted-append :
    (ids : List ℕ) (xs ys : List TagValue) → wanted ids (xs ++ ys) ≡ wanted ids xs ++ wanted ids ys
wanted-append ids [] ys = refl
wanted-append ids (x ∷ xs) ys = elim (Bool-cases (is_all ids || member x.tag_id ids)) [
  | inl through ↦ rw (through, wanted-append ids xs ys)
  | inr held ↦ rw (held, wanted-append ids xs ys)
]

-- What a receive takes.
abbrev pub head_of : List TagValue → List TagValue
head_of [] = []
head_of (entry ∷ entries) = entry ∷ []

abbrev pub stream_of : Option Subscriber → List TagValue
stream_of none = []
stream_of (some s) = s.stream

abbrev pub takes : ℕ → Store → Operation → List TagValue
takes i store (receives j) =
    if j == i then head_of (stream_of (get_elem? store.subscribers i)) else []
takes i store _ = []

-- The loop of `Put` for one subscriber, over what the operation stores.
abbrev pub notify_all : List TagValue → Subscriber → Subscriber
notify_all [] s = s
notify_all (entry ∷ entries) s = notify_all entries (notify entry s)

-- An operation as the i-th subscriber sees it, with what it stores.
abbrev pub step_one : ℕ → List TagValue → Operation → Subscriber → Subscriber
step_one i entries (puts now value) s = notify_all entries s
step_one i entries (unsubscribes j) s = if j == i then close_subscriber s else s
step_one i entries (receives j) s = if j == i then take_value s else s
step_one i entries _ s = s

abbrev pub take_one : ℕ → Operation → Subscriber → List TagValue
take_one i (receives j) s = if j == i then head_of s.stream else []
take_one i _ s = []

pub takes-one :
    (i : ℕ) (store : Store) (op : Operation) (s : Subscriber)
    → get_elem? store.subscribers i ≡ some s
    → takes i store op ≡ take_one i op s
takes-one i store (puts now value) s h = refl
takes-one i store (subscribes ids) s h = refl
takes-one i store (subscribes_values ids after) s h = refl
takes-one i store (unsubscribes j) s h = refl
takes-one i store (receives j) s h =
    ap (λ (o : Option Subscriber). if j == i then head_of (stream_of o) else []) h

put-one :
    (i now : ℕ) (store : Store) (r : Result StoreError TagValue) (s : Subscriber)
    → get_elem? store.subscribers i ≡ some s
    → let stored = put_normalized now store r in
      get_elem? (stored_of store stored).subscribers i ≡ some (notify_all (entries_of stored) s)
unfolding store_entry
put-one i now store (ok entry) s h =
    get_elem?-map store.subscribers (notify (stamp now entry store)) i h
put-one i now store (err e) s h = h

module _ (arithmetic : Arithmetic) where
  pub step-one :
      (i : ℕ) (store : Store) (op : Operation) (s : Subscriber)
      → get_elem? store.subscribers i ≡ some s
      → get_elem? (step arithmetic store op).subscribers i
        ≡ some (step_one i (stores arithmetic store op) op s)
  unfolding put subscribe_latest subscribe_values unsubscribe receive_value
  step-one i store (puts now value) s h =
      put-one i now store (normalize_tag_value arithmetic value) s h
  step-one i store (subscribes ids) s h = get_elem?-append store.subscribers _ i h
  step-one i store (subscribes_values ids after) s h = get_elem?-append store.subscribers _ i h
  step-one i store (unsubscribes j) s h = get_elem?-update store.subscribers close_subscriber j i h
  step-one i store (receives j) s h = get_elem?-update store.subscribers take_value j i h

  -- What the i-th subscriber receives in an execution.
  abbrev pub received : ℕ → Store → List Operation → List TagValue
  received i store [] = []
  received i store (op ∷ ops) = takes i store op ++ received i (step arithmetic store op) ops
