-- ===== src/Tag/Store/Restoring.antt =====
-- backend/internal/tag/value_store.go: `RestoreLatest`.
use iot_edge.Prelude.{
  ℕ, Bool, ◌||◌, not, List, [], ◌∷◌, length, ltb, ◌==◌, if◌then◌else◌, Result, ok, ◌>>=◌, ◌>>◌,
  fail_if, insert,
}
use iot_edge.Value.Float.{Arithmetic}
use iot_edge.Datalogger.Batch.{member}
use iot_edge.Tag.Store.{
  TagValue, StoreError, invalid_tag_value, tag_value_store_in_use, Store, normalize_tag_value,
}

module _ (arithmetic : Arithmetic) where
  -- The first loop of `RestoreLatest`; `seen` holds the ids before.
  unfoldable pub normalize_restored : List ℕ → List TagValue → Result StoreError (List TagValue)
  unfolding normalize_tag_value
  normalize_restored seen [] = ok []
  normalize_restored seen (value ∷ values) = normalize_tag_value arithmetic value >>= λ entry.
      fail_if ((entry.sequence == 0) || (entry.stored_at == 0)) invalid_tag_value
      >> fail_if (member entry.tag_id seen) invalid_tag_value
      >> (normalize_restored (entry.tag_id ∷ seen) values >>= λ entries. ok (entry ∷ entries))

-- Its second loop.
unfoldable pub restore_entry : TagValue → Store → Store
restore_entry entry store = record store {
  latest = insert entry.tag_id entry store.latest;
  history = insert entry.tag_id (entry ∷ []) store.history;
  sequence = if ltb store.sequence entry.sequence then entry.sequence else store.sequence;
}

unfoldable pub restore_entries : List TagValue → Store → Store
unfolding restore_entry
restore_entries [] store = store
restore_entries (entry ∷ entries) store = restore_entries entries (restore_entry entry store)

abbrev pub is_used : Store → Bool
is_used store =
    not (store.sequence == 0) || not (length store.latest == 0) || not (length store.history == 0)

module _ (arithmetic : Arithmetic) where
  unfoldable pub restore_latest : List TagValue → Store → Result StoreError Store
  unfolding normalize_restored restore_entries
  restore_latest values store = normalize_restored arithmetic [] values >>= λ entries.
      fail_if (is_used store) tag_value_store_in_use >> ok (restore_entries entries store)
