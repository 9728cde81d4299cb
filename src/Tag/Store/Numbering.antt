-- ===== src/Tag/Store/Numbering.antt =====
-- The sequence numbers and the values that the store of backend/internal/tag/value_store.go stores.
use iot_edge.Prelude.{
  ℕ, ◌+◌, ◌<◌, ◌%◌, ◌^◌, ◌≡◌, ◌≢◌, refl, subst, Bool, true, false, ◌||◌, not, List, [], ◌∷◌, ◌++◌,
  ◌==◌, if◌then◌else◌, Result, ok, err, arith, >>=-eq-ok, fail_if-eq-ok, ok-injective, length, All,
  All-append,
}
use iot_edge.Value.{DataType, Value, HasType}
use iot_edge.Value.Float.{Arithmetic}
use iot_edge.Value.Text.{Text, is_empty}
use iot_edge.Datalogger.Batch.{Quality}
use iot_edge.Tag.Coerce.{coerce_tag_value, CoerceError}
use iot_edge.Tag.Coerce.Range.{NarrowLaw, coerce_tag_value-HasType}
use iot_edge.Tag.Store.{
  TagValue, StoreError, invalid_tag_value, Store, normalize_quality, normalize_tag_value, put,
  put_normalized, stamp, store_entry, valid_tag_data_type,
}
use iot_edge.Tag.Store.Subscribing.{subscribe_latest, subscribe_values, unsubscribe, receive_value}
use iot_edge.Tag.Store.Execution.{
  Operation, puts, subscribes, subscribes_values, unsubscribes, receives, step, stores, log,
  stored_of, entries_of,
}

-- A good value has the Go type of its data type and no error; a bad one has an error and no value.
abbrev pub IsUsable : Quality → DataType → Value → Text → Type 0
IsUsable Quality.good t v error = HasType t v × (error ≡ [])
IsUsable Quality.bad t v error = (v ≡ Value.nil) × (is_empty error ≡ false)
IsUsable Quality.other t v error = ⊥

abbrev pub IsNormal : TagValue → Type 0
IsNormal entry =
    (entry.tag_id ≢ 0)
    × (entry.observed_at ≢ 0)
    × IsUsable entry.quality entry.data_type entry.value entry.error

-- The sequence numbers of the values are the next ones after n, one by one.
abbrev pub IsNumbered : ℕ → List TagValue → Type 0
IsNumbered n [] = Unit
IsNumbered n (entry ∷ entries) = (entry.sequence ≡ n + 1) × IsNumbered (n + 1) entries

module _ (arithmetic : Arithmetic) where
  kept_good :
      (t : DataType) (r : Result CoerceError Value) {kept : Value × Text}
      → ((w : Value) → r ≡ ok w → HasType t w)
      → elim r [ ok coerced ↦ ok (coerced, []) | err e ↦ err invalid_tag_value ] ≡ ok kept
      → HasType t kept.0 × (kept.1 ≡ [])
  kept_good t (ok w) typed h =
      subst (λ k. HasType t k.0 × (k.1 ≡ [])) (ok-injective h) (typed w refl, refl)
  kept_good t (err e) typed h = cc

  kept_bad :
      (empty : Bool) (error : Text) {kept : Value × Text}
      → is_empty error ≡ empty
      → ◌≡◌ {A = Result StoreError (Value × Text)}
          (if empty then err invalid_tag_value else ok (Value.nil, error))
          (ok kept)
      → (kept.0 ≡ Value.nil) × (is_empty kept.1 ≡ false)
  kept_bad true error e h = cc
  kept_bad false error e h =
      subst (λ k. (k.0 ≡ Value.nil) × (is_empty k.1 ≡ false)) (ok-injective h) (refl, e)

  normalize_quality-IsUsable :
      (q : Quality) (t : DataType) (v : Value) (error : Text) {kept : Value × Text}
      → NarrowLaw arithmetic
      → normalize_quality arithmetic q t v error ≡ ok kept
      → IsUsable q t kept.0 kept.1
  unfolding normalize_quality
  normalize_quality-IsUsable Quality.good t v error law h =
      kept_good t (coerce_tag_value arithmetic t v)
        (λ w e. coerce_tag_value-HasType arithmetic t v law e) h
  normalize_quality-IsUsable Quality.bad t v error law h = kept_bad (is_empty error) error refl h
  normalize_quality-IsUsable Quality.other t v error law h = cc

  pub normalize_tag_value-IsNormal :
      (value : TagValue) {entry : TagValue}
      → NarrowLaw arithmetic
      → normalize_tag_value arithmetic value ≡ ok entry
      → IsNormal entry
  unfolding normalize_tag_value
  normalize_tag_value-IsNormal value law h =
      let (known, next) =
        fail_if-eq-ok ((value.tag_id == 0) || not (valid_tag_data_type value.data_type))
          invalid_tag_value _ h in
      let (kept, usable, next1) =
        >>=-eq-ok
          (normalize_quality arithmetic value.quality value.data_type value.value value.error) _
          next in
      let (observed, made) = fail_if-eq-ok (value.observed_at == 0) invalid_tag_value _ next1 in
      subst IsNormal (ok-injective made) (
        ground (arith, known),
        ground (arith, observed),
        normalize_quality-IsUsable value.quality value.data_type value.value value.error law usable,
      )

  -- What `Put` stores, if anything: a normal value, with the next number.
  put-stored :
      (now : ℕ) (value : TagValue) (store : Store) (r : Result StoreError TagValue)
      → ((entry : TagValue) → r ≡ ok entry → IsNormal entry)
      → let stored = put_normalized now store r in All IsNormal (entries_of stored)
  unfolding stamp
  put-stored now value store (ok entry) normal = (normal entry refl, tt)
  put-stored now value store (err e) normal = tt

  stores-IsNormal :
      (store : Store) (op : Operation)
      → NarrowLaw arithmetic
      → All IsNormal (stores arithmetic store op)
  unfolding put
  stores-IsNormal store (puts now value) law =
      put-stored now value store (normalize_tag_value arithmetic value)
        (λ entry e. normalize_tag_value-IsNormal value law e)
  stores-IsNormal store (subscribes ids) law = tt
  stores-IsNormal store (subscribes_values ids after) law = tt
  stores-IsNormal store (unsubscribes i) law = tt
  stores-IsNormal store (receives i) law = tt

  -- Every value that an execution stores is normal, where a conversion to float32 makes no NaN of a
  -- number: it has an id and a time, and it is a good value of the Go type of its data type, in
  -- range, without an error, or a bad one with an error and without a value.
  pub log-IsNormal :
      (store : Store) (ops : List Operation)
      → NarrowLaw arithmetic
      → All IsNormal (log arithmetic store ops)
  log-IsNormal store [] law = tt
  log-IsNormal store (op ∷ ops) law =
      All-append IsNormal (stores arithmetic store op) _ (stores-IsNormal store op law)
        (log-IsNormal (step arithmetic store op) ops law)

  put-IsNumbered :
      (now : ℕ) (store : Store) (r : Result StoreError TagValue) (rest : List TagValue) (n : ℕ)
      → store.sequence + (n + 1) < 2 ^ 64
      → let stored = put_normalized now store r in
        ((stored_of store stored).sequence + n < 2 ^ 64
          → IsNumbered (stored_of store stored).sequence rest)
        → IsNumbered store.sequence (entries_of stored ++ rest)
  unfolding stamp store_entry
  put-IsNumbered now store (ok entry) rest n few next =
      let number : (store.sequence + 1) % 2 ^ 64 ≡ store.sequence + 1 = omega arith in
      (number, subst (λ k. IsNumbered k rest) number (next (omega arith)))
  put-IsNumbered now store (err e) rest n few next = next (omega arith)

  -- The values that an execution stores have the sequence numbers that follow the store's, one by
  -- one, as long as the number of operations does not take them past 2^64.
  pub log-IsNumbered :
      (store : Store) (ops : List Operation)
      → store.sequence + length ops < 2 ^ 64
      → IsNumbered store.sequence (log arithmetic store ops)
  unfolding put subscribe_latest subscribe_values unsubscribe receive_value
  log-IsNumbered store [] few = tt
  log-IsNumbered store (puts now value ∷ ops) few =
      put-IsNumbered now store (normalize_tag_value arithmetic value) _ (length ops) (omega arith)
        (λ less. log-IsNumbered (step arithmetic store (puts now value)) ops less)
  log-IsNumbered store (subscribes ids ∷ ops) few =
      log-IsNumbered (subscribe_latest ids store) ops (omega arith)
  log-IsNumbered store (subscribes_values ids after ∷ ops) few =
      log-IsNumbered (subscribe_values ids after store).1 ops (omega arith)
  log-IsNumbered store (unsubscribes i ∷ ops) few =
      log-IsNumbered (unsubscribe i store) ops (omega arith)
  log-IsNumbered store (receives i ∷ ops) few =
      log-IsNumbered (receive_value i store) ops (omega arith)
