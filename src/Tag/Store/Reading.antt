-- ===== src/Tag/Store/Reading.antt =====
-- backend/internal/tag/value_store.go: `Latest`, `Snapshot`, `Resolve` and `History`.
use iot_edge.Prelude.{
  ℕ, ◌-◌, Bool, true, false, ◌||◌, Option, none, some, List, [], ◌∷◌, length, drop, ltb, ◌==◌,
  if◌then◌else◌, Result, ok, err, ◌>>◌, fail_if, find, insert, ℤ, pos, negsuc,
}
use iot_edge.Value.{Value}
use iot_edge.Datalogger.Batch.{Quality}
use iot_edge.Tag.Store.{
  TagValue, StoreError, context_done, tag_value_not_found, tag_value_unavailable, history_limit,
  Store, or_empty,
}

-- `Latest`
unfoldable pub latest_of : ℕ → Store → Option TagValue
latest_of id store = find id store.latest

-- One round of the loop of `Snapshot`.
abbrev pub add_found : ℕ → Option TagValue → List (ℕ × TagValue) → List (ℕ × TagValue)
add_found id none snapshot = snapshot
add_found id (some entry) snapshot = insert id entry snapshot

unfoldable pub snapshot_of : List ℕ → Store → List (ℕ × TagValue)
snapshot_of [] store = []
snapshot_of (id ∷ ids) store = add_found id (find id store.latest) (snapshot_of ids store)

abbrev pub is_good : Quality → Bool
is_good Quality.good = true
is_good _ = false

abbrev pub resolved_value : Option TagValue → Result StoreError Value
resolved_value none = err tag_value_not_found
resolved_value (some entry) =
    if is_good entry.quality then ok entry.value else err tag_value_unavailable

-- `ValueSnapshot.Resolve`; `done` says that the context has an error.
unfoldable pub resolve_value : Bool → ℕ → List (ℕ × TagValue) → Result StoreError Value
resolve_value done id snapshot = fail_if done context_done >> resolved_value (find id snapshot)

abbrev pub effective_limit : ℤ → ℕ
effective_limit (negsuc n) = history_limit
effective_limit (pos limit) =
    if (limit == 0) || ltb history_limit limit then history_limit else limit

-- `History`
unfoldable pub history_of : ℕ → ℤ → Store → List TagValue
history_of id limit store =
    let entries = or_empty (find id store.history) in
    let n = effective_limit limit in
    if ltb n (length entries) then drop (length entries - n) entries else entries
