-- ===== src/Tag/Store/Replay.antt =====
-- What `SubscribeValues` of backend/internal/tag/value_store.go replays.
pub mod Sorting
mod Keyed
use iot_edge.Prelude.{
  ℕ, zero, suc, ◌+◌, ◌≤◌, ◌<◌, ◌≡◌, ◌≢◌, ◌↔◌, ◌⊎◌, refl, sym, ap, subst, ◌∙◌, Bool, true, false,
  ◌||◌, not, Option, none, some, List, [], ◌∷◌, ◌++◌, ◌==◌, if◌then◌else◌, Result, ok, err, leb,
  All, if-elim, Bool-cases, inl, inr, arith, ltb, find, insert, ℕ_discrete, ok-injective, >>=-eq-ok,
  fail_if-eq-ok, fail_if,
}
use iot_edge.Value.Float.{Arithmetic}
use iot_edge.Datalogger.Batch.{member}
use iot_edge.Tag.Store.{
  TagValue, Store, Subscriber, StoreError, is_all, filter_of, matches, put, put_normalized, stamp,
  store_entry, normalize_tag_value, new_memory_value_store, event_buffer, tag_value_store_in_use,
}
use iot_edge.Tag.Store.Reading.{latest_of}
use iot_edge.Tag.Store.Restoring.{
  normalize_restored, restore_entry, restore_entries, restore_latest, is_used,
}
use iot_edge.Tag.Store.Subscribing.{
  subscribe_values, collect_replay, insert_sorted, sort_by_sequence, new_subscriber,
  subscribe_latest, unsubscribe, receive_value,
}
use iot_edge.Tag.Store.Execution.{
  Operation, puts, subscribes, subscribes_values, unsubscribes, receives, step, execute, stored_of,
}
use iot_edge.Tag.Store.Replay.Sorting.{
  Among, IsSorted, sort_by_sequence-IsSorted, Among-sort_by_sequence,
}
use iot_edge.Tag.Store.Replay.Keyed.{IsKeyed, restore_entries-IsKeyed, execute-IsKeyed}

some-injective : {A : Type 0} {a b : A} → ◌≡◌ {A = Option A} (some a) (some b) → a ≡ b
some-injective h = cc

-- The values of a map that a replay takes.
abbrev Replayed : Subscriber → ℕ → List (ℕ × TagValue) → TagValue → Type 0
Replayed s after entries e =
    (find e.tag_id entries ≡ some e) × (after < e.sequence) × (matches s e.tag_id ≡ true)

find_new :
    (k : ℕ) (entries : List (ℕ × TagValue))
    → All (λ (p : ℕ × TagValue). p.0 ≢ k) entries
    → find k entries ≡ none
find_new k [] h = refl
find_new k ((j, entry) ∷ entries) h = ground (arith, h, find_new k entries h.1)

none_some : {A B : Type 0} {o : Option A} {a : A} → o ≡ none → o ≡ some a → B
none_some h k = cc

find_below :
    (k id : ℕ) (x e : TagValue) (entries : List (ℕ × TagValue))
    → All (λ (p : ℕ × TagValue). p.0 ≢ k) entries
    → find id entries ≡ some e
    → find id ((k, x) ∷ entries) ≡ some e
find_below k id x e entries new found = elim (ℕ_discrete k id) [
  | yes same ↦
      none_some (find_new k entries new) (subst (λ i. find i entries ≡ some e) (sym same) found)
  | no other ↦ ground (arith, other, found)
]

Replayed-below :
    (s : Subscriber) (after k : ℕ) (x e : TagValue) (entries : List (ℕ × TagValue))
    → All (λ (p : ℕ × TagValue). p.0 ≢ k) entries
    → Replayed s after entries e
    → Replayed s after ((k, x) ∷ entries) e
Replayed-below s after k x e entries new (found, later, through) =
    (find_below k e.tag_id x e entries new found, later, through)

Replayed-here :
    (s : Subscriber) (after : ℕ) (x e : TagValue) (entries : List (ℕ × TagValue))
    → leb x.sequence after || not (matches s x.tag_id) ≡ false
    → x ≡ e
    → Replayed s after ((x.tag_id, x) ∷ entries) e
Replayed-here s after x e entries takes same =
    subst (Replayed s after ((x.tag_id, x) ∷ entries)) same (
      if-elim (λ o. o ≡ some x) (x.tag_id == x.tag_id) (λ _. refl)
          (λ other. absurd (ground (arith, other))),
      ground (arith, takes),
      ground (arith, takes),
    )

Replayed-cons :
    (s : Subscriber) (after : ℕ) (x e : TagValue) (entries : List (ℕ × TagValue))
    → Replayed s after ((x.tag_id, x) ∷ entries) e
    → ((x ≡ e) × (leb x.sequence after || not (matches s x.tag_id) ≡ false))
      ⊎ Replayed s after entries e
Replayed-cons s after x e entries (found, later, through) =
    elim (Bool-cases (x.tag_id == e.tag_id)) [
      | inl own ↦
          let same : x ≡ e = some-injective (rw own at found) in
          inl (
            same,
            subst (λ y. leb y.sequence after || not (matches s y.tag_id) ≡ false) (sym same)
                (ground (arith, later, through)),
          )
      | inr other ↦ inr (rw other at found, later, through)
    ]

true_false : {B : Type 0} {b : Bool} → b ≡ true → b ≡ false → B
true_false h k = cc

or_both : {A B C D : Type 0} → (A → C) → (B → D) → A ⊎ B → C ⊎ D
or_both f g (inl a) = inl (f a)
or_both f g (inr b) = inr (g b)

Replayed-choose :
    (s : Subscriber) (after : ℕ) (x e : TagValue) (entries : List (ℕ × TagValue))
    (rest : List TagValue)
    → All (λ (p : ℕ × TagValue). p.0 ≢ x.tag_id) entries
    → Among e rest ↔ Replayed s after entries e
    → Among e (if leb x.sequence after || not (matches s x.tag_id) then rest else x ∷ rest)
      ↔ Replayed s after ((x.tag_id, x) ∷ entries) e
Replayed-choose s after x e entries rest new (there, back) =
    let below = Replayed-below s after x.tag_id x e entries new in
    if-elim (λ list. Among e list ↔ Replayed s after ((x.tag_id, x) ∷ entries) e)
      (leb x.sequence after || not (matches s x.tag_id))
      (λ skip. (
        λ h. below (there h),
        λ h. elim (Replayed-cons s after x e entries h) [
          | inl (same, takes) ↦ absurd (true_false skip takes)
          | inr rest_ ↦ back rest_
        ],
      ))
      (λ takes. (
        λ h. elim h [
          | inl same ↦ Replayed-here s after x e entries takes same
          | inr rest_ ↦ below (there rest_)
        ],
        λ h. or_both (λ p. p.0) back (Replayed-cons s after x e entries h),
      ))

collect_replay-Replayed :
    (s : Subscriber) (after : ℕ) (entries : List (ℕ × TagValue)) (e : TagValue)
    → IsKeyed entries
    → Among e (collect_replay s after entries) ↔ Replayed s after entries e
unfolding collect_replay
collect_replay-Replayed s after [] e keyed = (λ h. elim h [ ], λ h. none_some refl h.0)
collect_replay-Replayed s after ((k, x) ∷ entries) e (own, new, keyed) =
    let rest = collect_replay s after entries in
    subst
      (λ j.
        Among e (if leb x.sequence after || not (matches s j) then rest else x ∷ rest)
        ↔ Replayed s after ((j, x) ∷ entries) e)
      own
      (Replayed-choose s after x e entries rest
        (subst (λ j. All (λ (p : ℕ × TagValue). p.0 ≢ j) entries) (sym own) new)
        (collect_replay-Replayed s after entries e keyed))

module _ (arithmetic : Arithmetic) where
  -- In a store that was restored and has done any operations, a subscription to values after a
  -- sequence number replays, by rising sequence, just those latest values of the tags of its filter
  -- that have a greater number.
  pub subscribe_values-replay :
      (values : List TagValue) (store : Store) (ops : List Operation) (ids : List ℕ) (after : ℕ)
      → restore_latest arithmetic values new_memory_value_store ≡ ok store
      → let now = execute arithmetic store ops in
        let replay = (subscribe_values ids after now).0 in
        IsSorted replay
        × ((entry : TagValue)
            → Among entry replay ↔ (
                (latest_of entry.tag_id now ≡ some entry)
                × (after < entry.sequence)
                × (is_all (filter_of ids) || member entry.tag_id (filter_of ids) ≡ true)))
  unfolding subscribe_values restore_latest latest_of matches
  subscribe_values-replay values store ops ids after h =
      let (entries, _, next) = >>=-eq-ok (normalize_restored arithmetic [] values) _ h in
      let kept = execute-IsKeyed arithmetic store ops (
        subst (λ (st : Store). IsKeyed st.latest) (ok-injective next)
          (restore_entries-IsKeyed entries new_memory_value_store tt)) in
      let s = new_subscriber ids event_buffer true in
      let latest = (execute arithmetic store ops).latest in
      let collected = collect_replay s after latest in
      (
        sort_by_sequence-IsSorted collected,
        λ entry.
            let (out, in_) = Among-sort_by_sequence entry collected in
            let (there, back) = collect_replay-Replayed s after latest entry kept in
            (λ a. there (out a), λ r. in_ (back r)),
      )
