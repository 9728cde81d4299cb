-- ===== src/Asset/Rollup/Plan/Marks.antt =====
-- What the loops of `BuildRollupPlan` (backend/internal/asset/aggregation.go) take out of a total.
use iot_edge.Prelude.{
  ℕ, ◌≡◌, ◌≢◌, ◌⊎◌, sym, ap, ap₂, subst, ◌∙◌, Bool, true, false, ◌&&◌, ◌||◌, not, Option, none,
  some, List, [], ◌∷◌, if◌then◌else◌, ok, err, ok-injective, >>=-eq-ok, fail_if-eq-ok, insert,
  find-insert_self, find-insert_ne, if-elim, Bool-cases, inl, inr, ℕ_discrete, arith, ◌>>◌, fail_if,
}
use iot_edge.Value.Text.{Text, text_eq, text_eq→eq, text_eq_refl}
use iot_edge.Datalogger.Batch.{member}
use iot_edge.Asset.Rollup.{
  RollupCandidate, invalid_aggregation, conflicting_meters, Formats, is_main, is_virtual, by_id,
}
use iot_edge.Asset.Rollup.Plan.{
  is_included, main_of, has_main, loses, group_of, collect_mains, exclude_others, replace_inputs,
  replace_virtuals,
}

abbrev pub Marks : Type 0
Marks = List (ℕ × Bool)

abbrev pub Kept : Marks → ℕ → Type 0
Kept marks id = is_included id marks ≡ true

-- The second marks keep no other id than the first.
abbrev pub Fewer : Marks → Marks → Type 0
Fewer marks next = (id : ℕ) → Kept next id → Kept marks id

-- A candidate stands in a list.
abbrev pub Among : RollupCandidate → List RollupCandidate → Type 0
Among c [] = ⊥
Among c (x ∷ candidates) = (x ≡ c) ⊎ Among c candidates

pub true_false : {B : Type 0} {b : Bool} → b ≡ true → b ≡ false → B
true_false h k = cc

both_false : {B : Type 0} {a b : Bool} → a && b ≡ false → a ≡ true → b ≡ true → B
both_false h k l = true_false (ap₂ ◌&&◌ k l) h

taken_out : (id j : ℕ) (marks : Marks) → Kept (insert id false marks) j → (id ≢ j) × Kept marks j
taken_out id j marks h = elim (ℕ_discrete id j) [
  | yes same ↦ true_false h (
      subst (λ k. is_included k (insert id false marks) ≡ false) same
        (ap (λ (o : Option Bool). elim o [ none ↦ false | some b ↦ b ])
          (find-insert_self id false marks)))
  | no other ↦ (
    other,
    sym (
          ap (λ (o : Option Bool). elim o [ none ↦ false | some b ↦ b ])
            (find-insert_ne id j false marks other))
        ∙ h,
  )
]

module _ (formats : Formats) (mains : List (Text × ℕ)) where
  pub exclude_others-Fewer :
      (order : List RollupCandidate) (marks : Marks)
      → Fewer marks (exclude_others formats mains order marks)
  unfolding exclude_others
  exclude_others-Fewer [] marks id h = h
  exclude_others-Fewer (c ∷ order) marks id h =
      let lost = loses c.binding.id (main_of (group_of formats c) mains) in
      if-elim (λ m. Kept m id → Kept marks id) lost
        (λ _ kept. (taken_out c.binding.id id marks kept).1) (λ _ kept. kept)
        (exclude_others-Fewer order (if lost then insert c.binding.id false marks else marks) id h)

  pub exclude_others-lost :
      (c : RollupCandidate) (order : List RollupCandidate) (marks : Marks)
      → Among c order
      → loses c.binding.id (main_of (group_of formats c) mains) ≡ true
      → Kept (exclude_others formats mains order marks) c.binding.id
      → ⊥
  unfolding exclude_others
  exclude_others-lost c [] marks among lost h = elim among [ ]
  exclude_others-lost c (x ∷ order) marks (inl same) lost h =
      let out = loses x.binding.id (main_of (group_of formats x) mains) in
      let here : out ≡ true =
        subst (λ y. loses y.binding.id (main_of (group_of formats y) mains) ≡ true) (sym same)
          lost in
      let kept =
        exclude_others-Fewer order (if out then insert x.binding.id false marks else marks)
          c.binding.id h in
      let cut : Kept (insert x.binding.id false marks) c.binding.id =
        subst (λ b. Kept (if b then insert x.binding.id false marks else marks) c.binding.id) here
          kept in
      (taken_out x.binding.id c.binding.id marks cut).0
        (ap (λ (y : RollupCandidate). y.binding.id) same)
  exclude_others-lost c (x ∷ order) marks (inr later) lost h =
      exclude_others-lost c order _ later lost h

module _ (formats : Formats) (candidates : List RollupCandidate) where
  input_replaced :
      (c : RollupCandidate) (x : ℕ) (ids : List ℕ) (marks : Marks) (o : Option RollupCandidate)
      {next : Marks}
      → elim o [
        | none ↦ err invalid_aggregation
        | some input ↦
            fail_if
              (not (text_eq (group_of formats input) (group_of formats c)))
              invalid_aggregation
            >> replace_inputs formats candidates c ids (insert x false marks)
      ]
        ≡ ok next
      → replace_inputs formats candidates c ids (insert x false marks) ≡ ok next
  input_replaced c x ids marks none h = cc
  input_replaced c x ids marks (some input) h =
      (fail_if-eq-ok (not (text_eq (group_of formats input) (group_of formats c)))
        invalid_aggregation _ h).1

  replace_inputs-Fewer :
      (c : RollupCandidate) (ids : List ℕ) (marks : Marks) {next : Marks}
      → replace_inputs formats candidates c ids marks ≡ ok next
      → Fewer marks next × ((id : ℕ) → member id ids ≡ true → Kept next id → ⊥)
  unfolding replace_inputs
  replace_inputs-Fewer c [] marks h =
      (λ id kept. subst (λ m. Kept m id) (sym (ok-injective h)) kept, λ id m kept. cc m)
  replace_inputs-Fewer c (x ∷ ids) marks h =
      let (fewer, gone) =
        replace_inputs-Fewer c ids (insert x false marks)
          (input_replaced c x ids marks (by_id x candidates) h) in
      (
        λ id kept. (taken_out x id marks (fewer id kept)).1,
        λ id among kept.
            let (other, _) = taken_out x id marks (fewer id kept) in
            gone id (ground (arith, among, other)) kept,
      )

  virtual_replaced :
      (c : RollupCandidate) (marks : Marks) {next : Marks}
      → (if is_included c.binding.id marks && is_virtual c.binding.meter_role
          then replace_inputs formats candidates c c.binding.virtual_inputs marks
          else ok marks)
        ≡ ok next
      → Fewer marks next
        × (is_virtual c.binding.meter_role ≡ true
            → Kept next c.binding.id
            → (id : ℕ) → member id c.binding.virtual_inputs ≡ true
            → Kept next id
            → ⊥)
  virtual_replaced c marks h =
      elim (Bool-cases (is_included c.binding.id marks && is_virtual c.binding.meter_role)) [
        | inl acts ↦
            let (fewer, gone) =
              replace_inputs-Fewer c c.binding.virtual_inputs marks (rw acts at h) in
            (fewer, λ _ _ id among kept. gone id among kept)
        | inr idle ↦
            let same = ok-injective (rw idle at h) in
            (
              λ id kept. subst (λ m. Kept m id) (sym same) kept,
              λ virtual_ kept id among _.
                  both_false idle (subst (λ m. Kept m c.binding.id) (sym same) kept) virtual_,
            )
      ]

  pub replace_virtuals-Fewer :
      (order : List RollupCandidate) (marks : Marks) {next : Marks}
      → replace_virtuals formats candidates order marks ≡ ok next
      → Fewer marks next
        × ((c : RollupCandidate)
            → Among c order
            → is_virtual c.binding.meter_role ≡ true
            → Kept next c.binding.id
            → (id : ℕ) → member id c.binding.virtual_inputs ≡ true
            → Kept next id
            → ⊥)
  unfolding replace_virtuals
  replace_virtuals-Fewer [] marks h =
      (λ id kept. subst (λ m. Kept m id) (sym (ok-injective h)) kept, λ c among. elim among [ ])
  replace_virtuals-Fewer (x ∷ order) marks h =
      let (mid, first, rest) =
        >>=-eq-ok
          (if is_included x.binding.id marks && is_virtual x.binding.meter_role
            then replace_inputs formats candidates x x.binding.virtual_inputs marks
            else ok marks)
          _ h in
      let (fewer, gone) = virtual_replaced x marks first in
      let (later, others) = replace_virtuals-Fewer order mid rest in
      (
        λ id kept. fewer id (later id kept),
        λ c among virtual_ kept id input still. elim among [
          | inl same ↦
              gone
                (subst (λ (y : RollupCandidate). is_virtual y.binding.meter_role ≡ true) (sym same)
                  virtual_)
                (subst (λ (y : RollupCandidate). Kept mid y.binding.id) (sym same)
                  (later c.binding.id kept))
                id
                (subst (λ (y : RollupCandidate). member id y.binding.virtual_inputs ≡ true)
                  (sym same) input)
                (later id still)
          | inr there ↦ others c there virtual_ kept id input still
        ],
      )

module _ (formats : Formats) (marks : Marks) where
  abbrev pub Main : RollupCandidate → Type 0
  Main c = Kept marks c.binding.id × (is_main c.binding.meter_role ≡ true)

  Main-skipped :
      (c : RollupCandidate)
      → Main c
      → not (is_included c.binding.id marks) || not (is_main c.binding.meter_role) ≡ true
      → ⊥
  Main-skipped c (kept, main_) skip = true_false skip (ap₂ (λ a b. not a || not b) kept main_)

  collect_mains-keeps :
      (acc mains : List (Text × ℕ)) (order : List RollupCandidate) (group : Text) (id : ℕ)
      → collect_mains formats marks acc order ≡ ok mains
      → main_of group acc ≡ some id
      → main_of group mains ≡ some id
  unfolding collect_mains
  collect_mains-keeps acc mains [] group id h found =
      subst (λ m. main_of group m ≡ some id) (ok-injective h) found
  collect_mains-keeps acc mains (c ∷ order) group id h found =
      elim (Bool-cases
        (not (is_included c.binding.id marks) || not (is_main c.binding.meter_role))) [
          | inl skip ↦ collect_mains-keeps acc mains order group id (rw skip at h) found
          | inr takes ↦
              let (free, rest) =
                fail_if-eq-ok (has_main (main_of (group_of formats c) acc)) conflicting_meters _
                  (rw takes at h) in
              collect_mains-keeps ((group_of formats c, c.binding.id) ∷ acc) mains order group id
                rest
                (if-elim (λ o. o ≡ some id) (text_eq (group_of formats c) group)
                  (λ same.
                    true_false
                      (ap has_main (
                        subst (λ g. main_of g acc ≡ some id)
                          (sym (text_eq→eq (group_of formats c) group same)) found))
                      free)
                  (λ _. found))
        ]

  pub collect_mains-Main :
      (acc mains : List (Text × ℕ)) (order : List RollupCandidate) (c : RollupCandidate)
      → collect_mains formats marks acc order ≡ ok mains
      → Among c order
      → Main c
      → main_of (group_of formats c) mains ≡ some c.binding.id
  unfolding collect_mains
  collect_mains-Main acc mains [] c h among main_ = elim among [ ]
  collect_mains-Main acc mains (x ∷ order) c h among main_ =
      elim (Bool-cases
        (not (is_included x.binding.id marks) || not (is_main x.binding.meter_role))) [
          | inl skip ↦ elim among [
            | inl same ↦ absurd (Main-skipped x (subst Main (sym same) main_) skip)
            | inr later ↦ collect_mains-Main acc mains order c (rw skip at h) later main_
          ]
          | inr takes ↦
              let (free, rest) =
                fail_if-eq-ok (has_main (main_of (group_of formats x) acc)) conflicting_meters _
                  (rw takes at h) in
              elim among [
                | inl same ↦
                    subst (λ y. main_of (group_of formats y) mains ≡ some y.binding.id) same
                      (collect_mains-keeps ((group_of formats x, x.binding.id) ∷ acc) mains order
                        (group_of formats x) x.binding.id rest
                        (ap (λ b. if b then some x.binding.id else main_of (group_of formats x) acc)
                          (text_eq_refl (group_of formats x))))
                | inr later ↦
                    collect_mains-Main ((group_of formats x, x.binding.id) ∷ acc) mains order c rest
                      later main_
              ]
        ]
