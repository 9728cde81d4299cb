-- ===== src/Tag/Store/Replay/Sorting.antt =====
-- Lists of values of backend/internal/tag/value_store.go sorted by their sequence numbers.
use iot_edge.Prelude.{ℕ, ◌≤◌, ◌≡◌, ◌↔◌, ◌⊎◌, List, [], ◌∷◌, All, if-elim, inl, inr, arith, ltb}
use iot_edge.Tag.Store.{TagValue}
use iot_edge.Tag.Store.Subscribing.{insert_sorted, sort_by_sequence}

-- A value stands in a list.
abbrev pub Among : TagValue → List TagValue → Type 0
Among entry [] = ⊥
Among entry (other ∷ entries) = (other ≡ entry) ⊎ Among entry entries

-- Sequences rise, or stay, along a list.
abbrev pub IsSorted : List TagValue → Type 0
IsSorted [] = Unit
IsSorted (entry ∷ entries) =
    All (λ (other : TagValue). entry.sequence ≤ other.sequence) entries × IsSorted entries

All-above :
    (m n : ℕ) (entries : List TagValue)
    → m ≤ n
    → All (λ (other : TagValue). n ≤ other.sequence) entries
    → All (λ (other : TagValue). m ≤ other.sequence) entries
All-above m n [] h all = tt
All-above m n (entry ∷ entries) h all = (omega arith, All-above m n entries h all.1)

All-insert_sorted :
    (n : ℕ) (entry : TagValue) (entries : List TagValue)
    → n ≤ entry.sequence
    → All (λ (other : TagValue). n ≤ other.sequence) entries
    → All (λ (other : TagValue). n ≤ other.sequence) (insert_sorted entry entries)
unfolding insert_sorted
All-insert_sorted n entry [] h all = (h, tt)
All-insert_sorted n entry (other ∷ entries) h all =
    if-elim (All (λ (x : TagValue). n ≤ x.sequence)) (ltb entry.sequence other.sequence)
      (λ _. (h, all)) (λ _. (all.0, All-insert_sorted n entry entries h all.1))

insert_sorted-IsSorted :
    (entry : TagValue) (entries : List TagValue)
    → IsSorted entries
    → IsSorted (insert_sorted entry entries)
unfolding insert_sorted
insert_sorted-IsSorted entry [] h = (tt, tt)
insert_sorted-IsSorted entry (other ∷ entries) h =
    if-elim IsSorted (ltb entry.sequence other.sequence)
      (λ less. (
        (
          ground (arith, less),
          All-above entry.sequence other.sequence entries (ground (arith, less)) h.0,
        ),
        h,
      ))
      (λ more. (
        All-insert_sorted other.sequence entry entries (ground (arith, more)) h.0,
        insert_sorted-IsSorted entry entries h.1,
      ))

pub sort_by_sequence-IsSorted : (entries : List TagValue) → IsSorted (sort_by_sequence entries)
unfolding sort_by_sequence
sort_by_sequence-IsSorted [] = tt
sort_by_sequence-IsSorted (entry ∷ entries) =
    insert_sorted-IsSorted entry (sort_by_sequence entries) (sort_by_sequence-IsSorted entries)

swap : {A B C : Type 0} → A ⊎ (B ⊎ C) → B ⊎ (A ⊎ C)
swap (inl a) = inr (inl a)
swap (inr (inl b)) = inl b
swap (inr (inr c)) = inr (inr c)

or_map : {A B C : Type 0} → (B → C) → A ⊎ B → A ⊎ C
or_map f (inl a) = inl a
or_map f (inr b) = inr (f b)

Among-insert_sorted :
    (e entry : TagValue) (entries : List TagValue)
    → Among e (insert_sorted entry entries) ↔ Among e (entry ∷ entries)
unfolding insert_sorted
Among-insert_sorted e entry [] = (λ h. h, λ h. h)
Among-insert_sorted e entry (other ∷ entries) =
    let (there, back) = Among-insert_sorted e entry entries in
    if-elim (λ es. Among e es ↔ Among e (entry ∷ other ∷ entries))
      (ltb entry.sequence other.sequence) (λ _. (λ h. h, λ h. h))
      (λ _. (λ h. swap (or_map there h), λ h. or_map back (swap h)))

pub Among-sort_by_sequence :
    (e : TagValue) (entries : List TagValue) → Among e (sort_by_sequence entries) ↔ Among e entries
unfolding sort_by_sequence
Among-sort_by_sequence e [] = (λ h. h, λ h. h)
Among-sort_by_sequence e (entry ∷ entries) =
    let (there, back) = Among-sort_by_sequence e entries in
    let (out, in_) = Among-insert_sorted e entry (sort_by_sequence entries) in
    (λ h. or_map there (out h), λ h. in_ (or_map back h))
