-- ===== src/Tag/Store/Typed.antt =====
-- What an expression's resolver gets from a snapshot of the store of
-- backend/internal/tag/value_store.go.
use iot_edge.Prelude.{
  ℕ, ◌≡◌, ◌≢◌, refl, sym, ap, subst, ◌∙◌, Bool, true, false, ◌||◌, Option, none, some, List, [],
  ◌∷◌, ◌++◌, ◌==◌, if◌then◌else◌, Result, ok, err, All, All-append, if-elim, arith, find,
  find-insert_self, find-insert_ne, ℕ_discrete, ok-injective, >>=-eq-ok, fail_if-eq-ok, last_of,
  pos,
}
use iot_edge.Value.{DataType, Value, HasType}
use iot_edge.Value.Text.{Text}
use iot_edge.Value.Float.{Arithmetic}
use iot_edge.Datalogger.Batch.{member, Quality}
use iot_edge.Tag.Coerce.Range.{NarrowLaw}
use iot_edge.Tag.Store.{
  TagValue, Store, StoreError, context_done, tag_value_not_found, tag_value_unavailable,
  invalid_tag_value, normalize_tag_value, new_memory_value_store,
}
use iot_edge.Tag.Store.Reading.{
  latest_of, snapshot_of, add_found, resolve_value, resolved_value, is_good,
}
use iot_edge.Tag.Store.Restoring.{normalize_restored, restore_latest}
use iot_edge.Tag.Store.Execution.{Operation, execute, log}
use iot_edge.Tag.Store.Refinement.{of_tag}
use iot_edge.Tag.Store.Restored.{restore_latest-IsLog}
use iot_edge.Tag.Store.Numbering.{IsNormal, IsUsable, normalize_tag_value-IsNormal, log-IsNormal}

add_found_self :
    (id : ℕ) (o : Option TagValue) (snapshot : List (ℕ × TagValue))
    → (o ≡ none → find id snapshot ≡ none)
    → find id (add_found id o snapshot) ≡ o
add_found_self id none snapshot h = h refl
add_found_self id (some entry) snapshot h = find-insert_self id entry snapshot

add_found_ne :
    (id other : ℕ) (o : Option TagValue) (snapshot : List (ℕ × TagValue))
    → id ≢ other
    → find other (add_found id o snapshot) ≡ find other snapshot
add_found_ne id other none snapshot h = refl
add_found_ne id other (some entry) snapshot h = find-insert_ne id other entry snapshot h

abbrev found : ℕ → List ℕ → Store → Option TagValue
found id ids store = if member id ids then find id store.latest else none

-- A snapshot holds the latest values of its tags, and no others.
find-snapshot_of :
    (id : ℕ) (ids : List ℕ) (store : Store) → find id (snapshot_of ids store) ≡ found id ids store
unfolding snapshot_of
find-snapshot_of id [] store = refl
find-snapshot_of id (x ∷ ids) store = elim (ℕ_discrete x id) [
  | yes same ↦
      subst
        (λ i.
          find i (add_found x (find x store.latest) (snapshot_of ids store))
          ≡ found i (x ∷ ids) store)
        same
        (add_found_self x (find x store.latest) (snapshot_of ids store) (λ missing.
            find-snapshot_of x ids store
            ∙ if-elim (λ o. o ≡ none) (member x ids) (λ _. missing) (λ _. refl))
          ∙ sym (
              if-elim (λ o. o ≡ find x store.latest) ((x == x) || member x ids) (λ _. refl)
                (λ h. absurd (ground (arith, h)))))
  | no other ↦
      add_found_ne x id (find x store.latest) (snapshot_of ids store) other
      ∙ find-snapshot_of id ids store
      ∙ ap (λ b. if b then find id store.latest else none) (ground (arith, other))
]

resolved_if :
    (asked : Bool) (o : Option TagValue)
    → resolved_value (if asked then o else none)
      ≡ (if asked then resolved_value o else err tag_value_not_found)
resolved_if true o = refl
resolved_if false o = refl

-- A resolver gets the latest value of a tag of its snapshot, if that is good, and finds no other
-- tag; a context that is done fails first.
pub resolve_value-snapshot_of :
    (done : Bool) (id : ℕ) (ids : List ℕ) (store : Store)
    → resolve_value done id (snapshot_of ids store) ≡ (
        if done
        then err context_done
        else if member id ids
        then resolved_value (latest_of id store)
        else err tag_value_not_found)
unfolding resolve_value latest_of
resolve_value-snapshot_of true id ids store = refl
resolve_value-snapshot_of false id ids store =
    ap resolved_value (find-snapshot_of id ids store)
    ∙ resolved_if (member id ids) (find id store.latest)

some-injective : {A : Type 0} {a b : A} → ◌≡◌ {A = Option A} (some a) (some b) → a ≡ b
some-injective h = cc

entry-ok :
    (entry : TagValue) (q : Quality) {v : Value}
    → entry.quality ≡ q
    → ◌≡◌ {A = Result StoreError Value}
        (if is_good q then ok entry.value else err tag_value_unavailable)
        (ok v)
    → (entry.quality ≡ Quality.good) × (entry.value ≡ v)
entry-ok entry Quality.good e h = (e, ok-injective h)
entry-ok entry Quality.bad e h = cc
entry-ok entry Quality.other e h = cc

resolved-ok :
    (done asked : Bool) (o : Option TagValue) {v : Value}
    → (if done
        then err context_done
        else if asked
        then resolved_value o
        else err tag_value_not_found)
      ≡ ok v
    → (entry : TagValue) × (o ≡ some entry) × (entry.quality ≡ Quality.good) × (entry.value ≡ v)
resolved-ok true asked o h = cc
resolved-ok false false o h = cc
resolved-ok false true none h = cc
resolved-ok false true (some entry) h =
    let (good, same) = entry-ok entry entry.quality refl h in (entry, refl, good, same)

typed_of :
    (q : Quality) (t : DataType) (v : Value) (error : Text)
    → q ≡ Quality.good
    → IsUsable q t v error
    → HasType t v
typed_of Quality.good t v error e h = h.0
typed_of Quality.bad t v error e h = cc
typed_of Quality.other t v error e h = cc

All-of_tag :
    (P : TagValue → Type 0) (id : ℕ) (entries : List TagValue)
    → All P entries
    → All P (of_tag id entries)
All-of_tag P id [] h = tt
All-of_tag P id (entry ∷ entries) h =
    if-elim (All P) (entry.tag_id == id) (λ _. (h.0, All-of_tag P id entries h.1))
      (λ _. All-of_tag P id entries h.1)

All-last_of :
    (P : TagValue → Type 0) (entries : List TagValue) {entry : TagValue}
    → All P entries
    → last_of entries ≡ some entry
    → P entry
All-last_of P [] h e = cc
All-last_of P (x ∷ []) h e = subst P (some-injective e) h.0
All-last_of P (x ∷ y ∷ entries) h e = All-last_of P (y ∷ entries) h.1 e

module _ (arithmetic : Arithmetic) where
  normalize_restored-IsNormal :
      (seen : List ℕ) (values : List TagValue) {entries : List TagValue}
      → NarrowLaw arithmetic
      → normalize_restored arithmetic seen values ≡ ok entries
      → All IsNormal entries
  unfolding normalize_restored
  normalize_restored-IsNormal seen [] law h = subst (All IsNormal) (ok-injective h) tt
  normalize_restored-IsNormal seen (value ∷ values) law h =
      let (entry, normal, next) = >>=-eq-ok (normalize_tag_value arithmetic value) _ h in
      let (_, next1) =
        fail_if-eq-ok ((entry.sequence == 0) || (entry.stored_at == 0)) invalid_tag_value _ next in
      let (_, next2) = fail_if-eq-ok (member entry.tag_id seen) invalid_tag_value _ next1 in
      let (others, rest, whole) =
        >>=-eq-ok (normalize_restored arithmetic (entry.tag_id ∷ seen) values) _ next2 in
      subst (All IsNormal) (ok-injective whole) (
        normalize_tag_value-IsNormal arithmetic value law normal,
        normalize_restored-IsNormal (entry.tag_id ∷ seen) values law rest,
      )

  -- In a store that was restored and has done any operations, what a resolver gets from a snapshot
  -- is the value of the tag's latest entry, which is good and has the Go type of the entry's data
  -- type, in range and finite, where a conversion to float32 makes no NaN of a number.
  pub resolve_value-HasType :
      (values : List TagValue) (store : Store) (ops : List Operation) (done : Bool) (id : ℕ)
      (ids : List ℕ) (v : Value)
      → NarrowLaw arithmetic
      → restore_latest arithmetic values new_memory_value_store ≡ ok store
      → let now = execute arithmetic store ops in
        resolve_value done id (snapshot_of ids now) ≡ ok v
        → (entry : TagValue) × (latest_of id now ≡ some entry)
          × (entry.quality ≡ Quality.good)
          × (entry.value ≡ v)
          × HasType entry.data_type v
  resolve_value-HasType values store ops done id ids v law restored h =
      let now = execute arithmetic store ops in
      let (entries, normal, kept) = restore_latest-IsLog arithmetic values store ops restored in
      let all_normal =
        All-append IsNormal entries (log arithmetic store ops)
          (normalize_restored-IsNormal [] values law normal)
          (log-IsNormal arithmetic store ops law) in
      let (entry, newest, good, same) =
        resolved-ok done (member id ids) (latest_of id now)
          (sym (resolve_value-snapshot_of done id ids now) ∙ h) in
      let usable =
        All-last_of IsNormal (of_tag id (entries ++ log arithmetic store ops))
          (All-of_tag IsNormal id _ all_normal) (sym ((kept id (pos 0)).1) ∙ newest) in
      (
        entry,
        newest,
        good,
        same,
        subst (HasType entry.data_type) same
            (typed_of entry.quality entry.data_type entry.value entry.error good usable.2),
      )
