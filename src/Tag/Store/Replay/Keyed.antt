-- ===== src/Tag/Store/Replay/Keyed.antt =====
-- The map of latest values of backend/internal/tag/value_store.go has a key for each tag.
use iot_edge.Prelude.{
  ℕ, ◌≡◌, ◌≢◌, refl, sym, subst, false, List, [], ◌∷◌, ◌==◌, Result, ok, err, All, if-elim, arith,
  insert,
}
use iot_edge.Value.Float.{Arithmetic}
use iot_edge.Tag.Store.{
  TagValue, Store, StoreError, put, put_normalized, stamp, store_entry, normalize_tag_value,
}
use iot_edge.Tag.Store.Restoring.{restore_entry, restore_entries}
use iot_edge.Tag.Store.Subscribing.{subscribe_values, subscribe_latest, unsubscribe, receive_value}
use iot_edge.Tag.Store.Execution.{
  Operation, puts, subscribes, subscribes_values, unsubscribes, receives, step, execute, stored_of,
}

-- Each key of a map stands once, with a value of that tag.
abbrev pub IsKeyed : List (ℕ × TagValue) → Type 0
IsKeyed [] = Unit
IsKeyed ((k, entry) ∷ entries) =
    (entry.tag_id ≡ k) × All (λ (p : ℕ × TagValue). p.0 ≢ k) entries × IsKeyed entries

other_id : (j id : ℕ) → (j == id) ≡ false → j ≢ id
other_id j id h = ground (arith, h)

-- Writes keep a map keyed.
All-insert :
    (k key : ℕ) (entry : TagValue) (entries : List (ℕ × TagValue))
    → key ≢ k
    → All (λ (p : ℕ × TagValue). p.0 ≢ k) entries
    → All (λ (p : ℕ × TagValue). p.0 ≢ k) (insert key entry entries)
All-insert k key entry [] other h = (other, tt)
All-insert k key entry ((j, x) ∷ entries) other h =
    if-elim (All (λ (p : ℕ × TagValue). p.0 ≢ k)) (j == key) (λ _. (other, h.1))
      (λ _. (h.0, All-insert k key entry entries other h.1))

insert-IsKeyed :
    (entry : TagValue) (entries : List (ℕ × TagValue))
    → IsKeyed entries
    → IsKeyed (insert entry.tag_id entry entries)
insert-IsKeyed entry [] h = (refl, tt, tt)
insert-IsKeyed entry ((j, x) ∷ entries) (own, new, keyed) =
    if-elim IsKeyed (j == entry.tag_id)
      (λ same. (
        refl,
        subst (λ i. All (λ (p : ℕ × TagValue). p.0 ≢ i) entries) (ground (arith, same)) new,
        keyed,
      ))
      (λ other. (
        own,
        All-insert j entry.tag_id entry entries (λ e. other_id j entry.tag_id other (sym e)) new,
        insert-IsKeyed entry entries keyed,
      ))

store_entry-IsKeyed :
    (entry : TagValue) (store : Store)
    → IsKeyed store.latest
    → IsKeyed (store_entry entry store).latest
unfolding store_entry
store_entry-IsKeyed entry store h = insert-IsKeyed entry store.latest h

put_normalized-IsKeyed :
    (now : ℕ) (store : Store) (r : Result StoreError TagValue)
    → IsKeyed store.latest
    → IsKeyed (stored_of store (put_normalized now store r)).latest
put_normalized-IsKeyed now store (ok entry) h = store_entry-IsKeyed (stamp now entry store) store h
put_normalized-IsKeyed now store (err e) h = h

pub restore_entries-IsKeyed :
    (entries : List TagValue) (store : Store)
    → IsKeyed store.latest
    → IsKeyed (restore_entries entries store).latest
unfolding restore_entries restore_entry
restore_entries-IsKeyed [] store h = h
restore_entries-IsKeyed (entry ∷ entries) store h =
    restore_entries-IsKeyed entries (restore_entry entry store)
      (insert-IsKeyed entry store.latest h)

module _ (arithmetic : Arithmetic) where
  pub execute-IsKeyed :
      (store : Store) (ops : List Operation)
      → IsKeyed store.latest
      → IsKeyed (execute arithmetic store ops).latest
  unfolding put subscribe_latest subscribe_values unsubscribe receive_value
  execute-IsKeyed store [] h = h
  execute-IsKeyed store (puts now value ∷ ops) h =
      execute-IsKeyed (step arithmetic store (puts now value)) ops
        (put_normalized-IsKeyed now store (normalize_tag_value arithmetic value) h)
  execute-IsKeyed store (subscribes ids ∷ ops) h =
      execute-IsKeyed (step arithmetic store (subscribes ids)) ops h
  execute-IsKeyed store (subscribes_values ids after ∷ ops) h =
      execute-IsKeyed (step arithmetic store (subscribes_values ids after)) ops h
  execute-IsKeyed store (unsubscribes i ∷ ops) h =
      execute-IsKeyed (step arithmetic store (unsubscribes i)) ops h
  execute-IsKeyed store (receives i ∷ ops) h =
      execute-IsKeyed (step arithmetic store (receives i)) ops h
