-- ===== src/Tag/Store/Refinement.antt =====
-- The store of backend/internal/tag/value_store.go refines a log: the list of the values that it has
-- stored, of which it keeps the last one and the last ten of each tag.
use iot_edge.Prelude.{
  ℕ, ◌≡◌, ◌≢◌, refl, sym, ap, subst, ◌∙◌, List, [], ◌∷◌, ◌++◌, ◌==◌, if◌then◌else◌, ok, err, find,
  find-insert_self, find-insert_ne, last_n, last_n-append, last_of, last_of-append, append_assoc,
  append_nil, cut-last_n, Bool-cases, inl, inr, ℕ_discrete, arith,
}
use iot_edge.Value.Float.{Arithmetic}
use iot_edge.Tag.Store.{
  TagValue, history_limit, Store, or_empty, extend_history, store_entry, put, put_normalized, stamp,
  normalize_tag_value,
}
use iot_edge.Tag.Store.Subscribing.{subscribe_latest, subscribe_values, unsubscribe, receive_value}
use iot_edge.Tag.Store.Execution.{
  Operation, puts, subscribes, subscribes_values, unsubscribes, receives, step, stores, stored_of,
  entries_of, execute, log,
}

-- The values of a tag.
abbrev pub of_tag : ℕ → List TagValue → List TagValue
of_tag id [] = []
of_tag id (entry ∷ entries) =
    let rest = of_tag id entries in if entry.tag_id == id then entry ∷ rest else rest

pub of_tag-append :
    (id : ℕ) (xs ys : List TagValue) → of_tag id (xs ++ ys) ≡ of_tag id xs ++ of_tag id ys
of_tag-append id [] ys = refl
of_tag-append id (x ∷ xs) ys = elim (Bool-cases (x.tag_id == id)) [
  | inl same ↦ rw (same, of_tag-append id xs ys)
  | inr other ↦ rw (other, of_tag-append id xs ys)
]

-- What a log says of the values of a tag.
abbrev pub Agrees : List TagValue → List (ℕ × TagValue) → List (ℕ × List TagValue) → ℕ → Type 0
Agrees entries latest history id =
    (or_empty (find id history) ≡ last_n history_limit (of_tag id entries))
    × (find id latest ≡ last_of (of_tag id entries))

-- A store keeps what the log says.
abbrev pub IsLog : List TagValue → Store → Type 0
IsLog entries store = (id : ℕ) → Agrees entries store.latest store.history id

pub extend_history-last_n :
    (entries : List TagValue) (entry : TagValue)
    → extend_history (last_n history_limit entries) entry
      ≡ last_n history_limit (entries ++ entry ∷ [])
unfolding extend_history
extend_history-last_n entries entry =
    cut-last_n history_limit (last_n history_limit entries ++ entry ∷ [])
    ∙ last_n-append history_limit entries (entry ∷ [])

pub of_tag_own :
    (id : ℕ) (entry : TagValue) → entry.tag_id ≡ id → of_tag id (entry ∷ []) ≡ entry ∷ []
of_tag_own id entry same = ground (arith, same)

pub of_tag_other : (id : ℕ) (entry : TagValue) → entry.tag_id ≢ id → of_tag id (entry ∷ []) ≡ []
of_tag_other id entry other = ground (arith, other)

store_entry-own :
    (entries : List TagValue) (store : Store) (entry : TagValue)
    → Agrees entries store.latest store.history entry.tag_id
    → Agrees
        (entries ++ entry ∷ [])
        (store_entry entry store).latest
        (store_entry entry store).history
        entry.tag_id
unfolding store_entry
store_entry-own entries store entry (kept, newest) =
    let key = entry.tag_id in
    let more =
      of_tag-append key entries (entry ∷ [])
      ∙ ap (λ t. of_tag key entries ++ t) (of_tag_own key entry refl) in
    (
      ap or_empty (find-insert_self key _ store.history)
          ∙ ap (λ t. extend_history t entry) kept
          ∙ extend_history-last_n (of_tag key entries) entry
          ∙ ap (last_n history_limit) (sym more),
      find-insert_self key entry store.latest
          ∙ sym (last_of-append (of_tag key entries) entry)
          ∙ ap last_of (sym more),
    )

store_entry-other :
    (entries : List TagValue) (store : Store) (entry : TagValue) (id : ℕ)
    → entry.tag_id ≢ id
    → Agrees entries store.latest store.history id
    → Agrees
        (entries ++ entry ∷ [])
        (store_entry entry store).latest
        (store_entry entry store).history
        id
unfolding store_entry
store_entry-other entries store entry id other (kept, newest) =
    let same =
      of_tag-append id entries (entry ∷ [])
      ∙ ap (λ t. of_tag id entries ++ t) (of_tag_other id entry other)
      ∙ append_nil (of_tag id entries) in
    (
      ap or_empty (find-insert_ne entry.tag_id id _ store.history other)
          ∙ kept
          ∙ ap (last_n history_limit) (sym same),
      find-insert_ne entry.tag_id id entry store.latest other ∙ newest ∙ ap last_of (sym same),
    )

pub store_entry-IsLog :
    (entries : List TagValue) (store : Store) (entry : TagValue)
    → IsLog entries store
    → IsLog (entries ++ entry ∷ []) (store_entry entry store)
store_entry-IsLog entries store entry h id = elim (ℕ_discrete entry.tag_id id) [
  | yes same ↦
      subst
        (Agrees (entries ++ entry ∷ []) (store_entry entry store).latest
          (store_entry entry store).history)
        same (store_entry-own entries store entry (h entry.tag_id))
  | no other ↦ store_entry-other entries store entry id other (h id)
]

module _ (arithmetic : Arithmetic) where
  step-IsLog :
      (entries : List TagValue) (store : Store) (op : Operation)
      → IsLog entries store
      → IsLog (entries ++ stores arithmetic store op) (step arithmetic store op)
  unfolding put subscribe_latest subscribe_values unsubscribe receive_value
  step-IsLog entries store (puts now entry) h =
      elim (normalize_tag_value arithmetic entry)
        as (λ m.
          IsLog (entries ++ entries_of (put_normalized now store m))
            (stored_of store (put_normalized now store m))) [
              | ok normalized ↦ store_entry-IsLog entries store (stamp now normalized store) h
              | err e ↦ subst (λ t. IsLog t store) (sym (append_nil entries)) h
            ]
  step-IsLog entries store (subscribes ids) h =
      subst (λ t. IsLog t store) (sym (append_nil entries)) h
  step-IsLog entries store (subscribes_values ids after) h =
      subst (λ t. IsLog t store) (sym (append_nil entries)) h
  step-IsLog entries store (unsubscribes i) h =
      subst (λ t. IsLog t store) (sym (append_nil entries)) h
  step-IsLog entries store (receives i) h = subst (λ t. IsLog t store) (sym (append_nil entries)) h

  pub execute-IsLog :
      (entries : List TagValue) (store : Store) (ops : List Operation)
      → IsLog entries store
      → IsLog (entries ++ log arithmetic store ops) (execute arithmetic store ops)
  execute-IsLog entries store [] h = subst (λ t. IsLog t store) (sym (append_nil entries)) h
  execute-IsLog entries store (op ∷ ops) h =
      subst (λ t. IsLog t (execute arithmetic (step arithmetic store op) ops))
        (append_assoc entries (stores arithmetic store op) _)
        (execute-IsLog (entries ++ stores arithmetic store op) (step arithmetic store op) ops
          (step-IsLog entries store op h))
