-- ===== src/Tag/Store/Restored.antt =====
-- What a store of backend/internal/tag/value_store.go holds after `RestoreLatest` and any operations.
use iot_edge.Prelude.{
  ℕ, ◌≡◌, ◌≢◌, refl, sym, ap, subst, ◌∙◌, false, ◌||◌, some, List, [], ◌∷◌, ◌++◌, ◌==◌, ok, find,
  insert, ℤ, pos, negsuc, find-insert_self, find-insert_ne, last_n, last_n_twice, last_of,
  append_assoc, append_nil, cut-last_n, ℕ_discrete, arith, >>=-eq-ok, fail_if-eq-ok, ok-injective,
  ◌≤◌,
}
use iot_edge.Value.Float.{Arithmetic}
use iot_edge.Datalogger.Batch.{member}
use iot_edge.Tag.Store.{
  TagValue, invalid_tag_value, history_limit, Store, or_empty, normalize_tag_value,
  new_memory_value_store,
}
use iot_edge.Tag.Store.Reading.{latest_of, history_of, effective_limit}
use iot_edge.Tag.Store.Restoring.{
  normalize_restored, restore_entry, restore_entries, restore_latest,
}
use iot_edge.Tag.Store.Execution.{Operation, execute, log}
use iot_edge.Tag.Store.Refinement.{
  of_tag, of_tag-append, of_tag_own, of_tag_other, IsLog, execute-IsLog,
}

-- A tag that is not among the seen ones has no value yet.
abbrev Covers : List ℕ → List TagValue → Type 0
Covers seen done = (id : ℕ) → member id seen ≡ false → of_tag id done ≡ []

not_member-cons :
    (id x : ℕ) (seen : List ℕ) → member id (x ∷ seen) ≡ false → (x ≢ id) × (member id seen ≡ false)
not_member-cons id x seen h = ground arith

Covers-append :
    (seen : List ℕ) (done : List TagValue) (entry : TagValue)
    → Covers seen done
    → Covers (entry.tag_id ∷ seen) (done ++ entry ∷ [])
Covers-append seen done entry h id new =
    let (other, unseen) = not_member-cons id entry.tag_id seen new in
    of_tag-append id done (entry ∷ [])
    ∙ ap (λ t. of_tag id done ++ t) (of_tag_other id entry other)
    ∙ append_nil (of_tag id done)
    ∙ h id unseen

restore_entry-IsLog :
    (done : List TagValue) (store : Store) (entry : TagValue)
    → of_tag entry.tag_id done ≡ []
    → IsLog done store
    → IsLog (done ++ entry ∷ []) (restore_entry entry store)
unfolding restore_entry
restore_entry-IsLog done store entry fresh h id = elim (ℕ_discrete entry.tag_id id) [
  | yes same ↦
      let alone =
        of_tag-append id done (entry ∷ [])
        ∙ ap (λ t. t ++ of_tag id (entry ∷ [])) (subst (λ i. of_tag i done ≡ []) same fresh)
        ∙ of_tag_own id entry same in
      (
        subst (λ i. or_empty (find i (insert entry.tag_id (entry ∷ []) store.history)) ≡ entry ∷ [])
              same (ap or_empty (find-insert_self entry.tag_id (entry ∷ []) store.history))
            ∙ ap (last_n history_limit) (sym alone),
        subst (λ i. find i (insert entry.tag_id entry store.latest) ≡ some entry) same
              (find-insert_self entry.tag_id entry store.latest)
            ∙ ap last_of (sym alone),
      )
  | no other ↦
      let same =
        of_tag-append id done (entry ∷ [])
        ∙ ap (λ t. of_tag id done ++ t) (of_tag_other id entry other)
        ∙ append_nil (of_tag id done) in
      (
        ap or_empty (find-insert_ne entry.tag_id id (entry ∷ []) store.history other)
            ∙ (h id).0
            ∙ ap (last_n history_limit) (sym same),
        find-insert_ne entry.tag_id id entry store.latest other ∙ (h id).1 ∙ ap last_of (sym same),
      )
]

limit_small : (limit : ℤ) → effective_limit limit ≤ history_limit
limit_small (pos n) = ground arith
limit_small (negsuc n) = omega arith

-- The history of a tag in a store that keeps a log.
history_of-IsLog :
    (entries : List TagValue) (store : Store) (id : ℕ) (limit : ℤ)
    → IsLog entries store
    → history_of id limit store ≡ last_n (effective_limit limit) (of_tag id entries)
unfolding history_of
history_of-IsLog entries store id limit h =
    cut-last_n (effective_limit limit) (or_empty (find id store.history))
    ∙ ap (last_n (effective_limit limit)) (h id).0
    ∙ last_n_twice (effective_limit limit) history_limit (of_tag id entries) (limit_small limit)

new-IsLog : IsLog [] new_memory_value_store
new-IsLog id = (refl, refl)

module _ (arithmetic : Arithmetic) where
  restore_entries-IsLog :
      (seen : List ℕ) (done values : List TagValue) (store : Store) {entries : List TagValue}
      → Covers seen done
      → IsLog done store
      → normalize_restored arithmetic seen values ≡ ok entries
      → IsLog (done ++ entries) (restore_entries entries store)
  unfolding normalize_restored restore_entries
  restore_entries-IsLog seen done [] store covered h finished =
      subst (λ t. IsLog (done ++ t) (restore_entries t store)) (ok-injective finished)
        (subst (λ t. IsLog t store) (sym (append_nil done)) h)
  restore_entries-IsLog seen done (value ∷ values) store covered h finished =
      let (entry, _, next) = >>=-eq-ok (normalize_tag_value arithmetic value) _ finished in
      let (_, next1) =
        fail_if-eq-ok ((entry.sequence == 0) || (entry.stored_at == 0)) invalid_tag_value _ next in
      let (new, next2) = fail_if-eq-ok (member entry.tag_id seen) invalid_tag_value _ next1 in
      let (others, rest, whole) =
        >>=-eq-ok (normalize_restored arithmetic (entry.tag_id ∷ seen) values) _ next2 in
      let step =
        restore_entries-IsLog (entry.tag_id ∷ seen) (done ++ entry ∷ []) values
          (restore_entry entry store) (Covers-append seen done entry covered)
          (restore_entry-IsLog done store entry (covered entry.tag_id new) h) rest in
      subst (λ t. IsLog (done ++ t) (restore_entries t store)) (ok-injective whole)
        (subst (λ t. IsLog t (restore_entries others (restore_entry entry store)))
          (append_assoc done (entry ∷ []) others) step)

  -- After the values that a new store has restored, none of which may share a tag, and any
  -- operations, the history of a tag is made of its last values, at most ten and no more than was
  -- asked for, and its latest value is the last one, of those restored and those stored since.
  pub restore_latest-IsLog :
      (values : List TagValue) (store : Store) (ops : List Operation)
      → restore_latest arithmetic values new_memory_value_store ≡ ok store
      → (entries : List TagValue) × (normalize_restored arithmetic [] values ≡ ok entries)
        × ((id : ℕ) (limit : ℤ)
            → (history_of id limit (execute arithmetic store ops)
                ≡ last_n (effective_limit limit) (of_tag id (entries ++ log arithmetic store ops)))
              × (latest_of id (execute arithmetic store ops)
                  ≡ last_of (of_tag id (entries ++ log arithmetic store ops))))
  unfolding restore_latest latest_of
  restore_latest-IsLog values store ops h =
      let (entries, restored, next) = >>=-eq-ok (normalize_restored arithmetic [] values) _ h in
      let made =
        restore_entries-IsLog [] [] values new_memory_value_store (λ id _. refl) new-IsLog
          restored in
      let kept =
        execute-IsLog arithmetic entries store ops
          (subst (IsLog entries) (ok-injective next) made) in
      (
        entries,
        restored,
        λ id limit. (
          history_of-IsLog (entries ++ log arithmetic store ops) (execute arithmetic store ops) id
              limit kept,
          (kept id).1,
        ),
      )
