-- ===== src/Asset/Rollup/Cycle.antt =====
-- `virtualDependencyCycle` (backend/internal/asset/aggregation.go) decides whether virtual meters
-- depend on themselves.
use iot_edge.Prelude.{
  ℕ, zero, suc, ◌+◌, ◌≤◌, ◌<◌, ◌≡◌, ◌≢◌, refl, sym, ap, subst, Bool, true, false, Option, none,
  some, List, [], ◌∷◌, ◌==◌, if◌then◌else◌, Bool-cases, inl, inr, ◌⊎◌, arith, length,
}
use iot_edge.Datalogger.Batch.{member}
use iot_edge.Asset.Rollup.{
  RollupCandidate, by_id, inputs_of, is_candidate, Visit, exhausted, cycle, settled, then_visit,
  visit_all, visit, ids_of, virtual_dependency_cycle,
}

module _ (candidates : List RollupCandidate) where
  -- One meter depends on another, by its inputs or theirs.
  pub data Depends : ℕ → ℕ → Type 0 where
    direct :
        {meter input : ℕ} → member input (inputs_of meter candidates) ≡ true → Depends meter input
    further :
        {meter mid input : ℕ}
        → Depends meter mid
        → member input (inputs_of mid candidates) ≡ true
        → Depends meter input

  -- A list of meters in which the inputs of each come after it.
  abbrev pub IsOrdered : List ℕ → Type 0
  IsOrdered [] = Unit
  IsOrdered (id ∷ done) =
      ((input : ℕ)
        → member input (inputs_of id candidates) ≡ true
        → is_candidate input candidates ≡ true
        → member input done ≡ true)
      × IsOrdered done

abbrev Sub : List ℕ → List ℕ → Type 0
Sub done later = (id : ℕ) → member id done ≡ true → member id later ≡ true

-- A visit that settles keeps the order and holds its meter.
abbrev Settles : List RollupCandidate → (List ℕ → ℕ → Visit) → Type 0
Settles candidates f =
    (done : List ℕ) (id : ℕ) (later : List ℕ)
    → f done id ≡ settled later
    → IsOrdered candidates done
    → IsOrdered candidates later × Sub done later × (member id later ≡ true)

settled-injective : {a b : List ℕ} → settled a ≡ settled b → a ≡ b
settled-injective h = cc

then_visit-settled :
    (v : Visit) (f : List ℕ → Visit) {later : List ℕ}
    → then_visit v f ≡ settled later
    → (mid : List ℕ) × (v ≡ settled mid) × (f mid ≡ settled later)
then_visit-settled exhausted f h = cc
then_visit-settled cycle f h = cc
then_visit-settled (settled mid) f h = (mid, refl, h)

then_visit-cycle :
    (v : Visit) (f : List ℕ → Visit)
    → then_visit v f ≡ cycle
    → (v ≡ cycle) ⊎ ((mid : List ℕ) × (f mid ≡ cycle))
then_visit-cycle exhausted f h = cc
then_visit-cycle cycle f h = inl refl
then_visit-cycle (settled mid) f h = inr (mid, h)

then_visit-exhausted :
    (v : Visit) (f : List ℕ → Visit)
    → v ≢ exhausted
    → ((mid : List ℕ) → f mid ≢ exhausted)
    → then_visit v f ≢ exhausted
then_visit-exhausted exhausted f h k e = h e
then_visit-exhausted cycle f h k e = cc
then_visit-exhausted (settled mid) f h k e = k mid e

-- Either the head or a later element.
member_cases :
    (id x : ℕ) (ids : List ℕ) → member id (x ∷ ids) ≡ true → (x ≡ id) ⊎ (member id ids ≡ true)
member_cases id x ids h = ground arith

member_self : (id : ℕ) (ids : List ℕ) → member id (id ∷ ids) ≡ true
member_self id ids = ground arith

member_later : (id x : ℕ) (ids : List ℕ) → member id ids ≡ true → member id (x ∷ ids) ≡ true
member_later id x ids h = ground (arith, h)

unknown_candidate :
    (candidates : List RollupCandidate) {x input : ℕ}
    → x ≡ input
    → is_candidate x candidates ≡ false
    → is_candidate input candidates ≡ true
    → ⊥
unknown_candidate candidates same unknown known = cc

module _ (candidates : List RollupCandidate) where
  visit_all-Settles :
      (f : List ℕ → ℕ → Visit) (done ids : List ℕ) {later : List ℕ}
      → Settles candidates f
      → visit_all f candidates done ids ≡ settled later
      → IsOrdered candidates done
      → IsOrdered candidates later
        × Sub done later
        × ((input : ℕ)
            → member input ids ≡ true
            → is_candidate input candidates ≡ true
            → member input later ≡ true)
  visit_all-Settles f done [] good h ordered =
      let same = settled-injective h in
      (
        subst (IsOrdered candidates) same ordered,
        λ id among. subst (λ d. member id d ≡ true) same among,
        λ input among. cc among,
      )
  visit_all-Settles f done (x ∷ ids) good h ordered =
      elim (Bool-cases (is_candidate x candidates)) [
        | inl known ↦
            let (mid, first, rest) = then_visit-settled (f done x) _ (rw known at h) in
            let (ordered_mid, sub, here) = good done x mid first ordered in
            let (ordered_later, sub_later, all) =
              visit_all-Settles f mid ids good rest ordered_mid in
            (
              ordered_later,
              λ id among. sub_later id (sub id among),
              λ input among candidate. elim (member_cases input x ids among) [
                | inl same ↦ sub_later input (subst (λ i. member i mid ≡ true) same here)
                | inr there ↦ all input there candidate
              ],
            )
        | inr unknown ↦
            let (ordered_later, sub_later, all) =
              visit_all-Settles f done ids good (rw unknown at h) ordered in
            (
              ordered_later,
              sub_later,
              λ input among candidate. elim (member_cases input x ids among) [
                | inl same ↦ absurd (unknown_candidate candidates same unknown candidate)
                | inr there ↦ all input there candidate
              ],
            )
      ]

  visit-Settles : (n : ℕ) (path : List ℕ) → Settles candidates (visit n candidates path)
  unfolding visit
  visit-Settles zero path done id later h ordered = cc
  visit-Settles (suc n) path done id later h ordered = elim (Bool-cases (member id path)) [
    | inl active ↦ cc (rw active at h)
    | inr free ↦ elim (Bool-cases (member id done)) [
      | inl finished ↦
          let same = settled-injective (rw (free, finished) at h) in
          (
            subst (IsOrdered candidates) same ordered,
            λ i among. subst (λ d. member i d ≡ true) same among,
            subst (λ d. member id d ≡ true) same finished,
          )
      | inr fresh_ ↦
          let (mid, inputs, made) =
            then_visit-settled
              (visit_all (visit n candidates (id ∷ path)) candidates done (inputs_of id candidates))
              _ (rw (free, fresh_) at h) in
          let (ordered_mid, sub, all) =
            visit_all-Settles (visit n candidates (id ∷ path)) done (inputs_of id candidates)
              (visit-Settles n (id ∷ path)) inputs ordered in
          let same = settled-injective made in
          (
            subst (IsOrdered candidates) same (all, ordered_mid),
            λ i among. subst (λ d. member i d ≡ true) same (member_later i id mid (sub i among)),
            subst (λ d. member id d ≡ true) same (member_self id mid),
          )
    ]
  ]

-- The candidates that a path does not hold yet.
abbrev fresh : List ℕ → List ℕ → ℕ
fresh path [] = 0
fresh path (id ∷ ids) = (if member id path then 0 else 1) + fresh path ids

fresh_less : (x : ℕ) (path ids : List ℕ) → fresh (x ∷ path) ids ≤ fresh path ids
fresh_less x path [] = omega arith
fresh_less x path (id ∷ ids) = ground (arith, fresh_less x path ids)

fresh_fewer :
    (x : ℕ) (path ids : List ℕ)
    → member x path ≡ false
    → member x ids ≡ true
    → fresh (x ∷ path) ids < fresh path ids
fresh_fewer x path [] new among = cc
fresh_fewer x path (id ∷ ids) new among = elim (member_cases x id ids among) [
  | inl same ↦
      subst (λ i. fresh (x ∷ path) (i ∷ ids) < fresh path (i ∷ ids)) (sym same)
        (ground (arith, new, fresh_less x path ids))
  | inr there ↦ ground (arith, fresh_fewer x path ids new there)
]

fresh-length : (path ids : List ℕ) → fresh path ids ≤ length ids
fresh-length path [] = omega arith
fresh-length path (id ∷ ids) = ground (arith, fresh-length path ids)

known_later :
    (here : Bool) (c : RollupCandidate) (o : Option RollupCandidate)
    → here ≡ false
    → elim (if here then some c else o) [ none ↦ false | some d ↦ true ] ≡ true
    → elim o [ none ↦ false | some d ↦ true ] ≡ true
known_later true c o e h = cc
known_later false c o e h = h

is_candidate-member :
    (id : ℕ) (candidates : List RollupCandidate)
    → is_candidate id candidates ≡ true
    → member id (ids_of candidates) ≡ true
is_candidate-member id [] h = cc
is_candidate-member id (c ∷ candidates) h = elim (Bool-cases (c.binding.id == id)) [
  | inl same ↦ rw same
  | inr other ↦ rw other (
      is_candidate-member id candidates
        (known_later (c.binding.id == id) c (by_id id candidates) other h))
]

module _ (candidates : List RollupCandidate) where
  visit_all-finishes :
      (f : List ℕ → ℕ → Visit) (done ids : List ℕ)
      → ((d : List ℕ) (id : ℕ) → is_candidate id candidates ≡ true → f d id ≢ exhausted)
      → visit_all f candidates done ids ≢ exhausted
  visit_all-finishes f done [] h e = cc
  visit_all-finishes f done (x ∷ ids) h e = elim (Bool-cases (is_candidate x candidates)) [
    | inl known ↦
        then_visit-exhausted (f done x) _ (h done x known) (λ mid. visit_all-finishes f mid ids h)
          (rw known at e)
    | inr unknown ↦ visit_all-finishes f done ids h (rw unknown at e)
  ]

  visit-finishes :
      (n : ℕ) (path done : List ℕ) (id : ℕ)
      → fresh path (ids_of candidates) < n
      → is_candidate id candidates ≡ true
      → visit n candidates path done id ≢ exhausted
  unfolding visit
  visit-finishes zero path done id few known e = absurd (omega arith)
  visit-finishes (suc n) path done id few known e = elim (Bool-cases (member id path)) [
    | inl active ↦ cc (rw active at e)
    | inr free ↦ elim (Bool-cases (member id done)) [
      | inl finished ↦ cc (rw (free, finished) at e)
      | inr fresh_ ↦
          then_visit-exhausted
            (visit_all (visit n candidates (id ∷ path)) candidates done (inputs_of id candidates))
            (λ later. settled (id ∷ later))
            (visit_all-finishes (visit n candidates (id ∷ path)) done (inputs_of id candidates)
              (λ d x known_x.
                visit-finishes n (id ∷ path) d x
                  (omega (
                    arith,
                    few,
                    fresh_fewer id path (ids_of candidates) free
                        (is_candidate-member id candidates known),
                  ))
                  known_x))
            (λ mid shut. cc shut) (rw (free, fresh_) at e)
    ]
  ]

  -- A path of calls: each of its meters depends on the one that is visited.
  abbrev Leads : List ℕ → ℕ → Type 0
  Leads path id = (meter : ℕ) → member meter path ≡ true → Depends candidates meter id

  abbrev HasCycle : Type 0
  HasCycle = (meter : ℕ) × Depends candidates meter meter

  visit_all-cycle :
      (f : List ℕ → ℕ → Visit) (done ids : List ℕ)
      → ((d : List ℕ) (id : ℕ) → member id ids ≡ true → f d id ≡ cycle → HasCycle)
      → visit_all f candidates done ids ≡ cycle
      → HasCycle
  visit_all-cycle f done [] h e = cc
  visit_all-cycle f done (x ∷ ids) h e = elim (Bool-cases (is_candidate x candidates)) [
    | inl known ↦ elim (then_visit-cycle (f done x) _ (rw known at e)) [
      | inl here ↦ h done x (member_self x ids) here
      | inr (mid, there) ↦
          visit_all-cycle f mid ids (λ d id among. h d id (member_later id x ids among)) there
    ]
    | inr unknown ↦
        visit_all-cycle f done ids (λ d id among. h d id (member_later id x ids among))
          (rw unknown at e)
  ]

  visit-cycle :
      (n : ℕ) (path done : List ℕ) (id : ℕ)
      → Leads path id
      → visit n candidates path done id ≡ cycle
      → HasCycle
  unfolding visit
  visit-cycle zero path done id leads e = cc
  visit-cycle (suc n) path done id leads e = elim (Bool-cases (member id path)) [
    | inl active ↦ (id, leads id active)
    | inr free ↦ elim (Bool-cases (member id done)) [
      | inl finished ↦ cc (rw (free, finished) at e)
      | inr fresh_ ↦
          elim (then_visit-cycle
            (visit_all (visit n candidates (id ∷ path)) candidates done (inputs_of id candidates))
            (λ later. settled (id ∷ later)) (rw (free, fresh_) at e)) [
              | inl inside ↦
                  visit_all-cycle (visit n candidates (id ∷ path)) done (inputs_of id candidates)
                    (λ d x among. visit-cycle n (id ∷ path) d x (λ meter on_path.
                      elim (member_cases meter id path on_path) [
                        | inl same ↦ subst (λ m. Depends candidates m x) same (direct among)
                        | inr before ↦ further (leads meter before) among
                      ]))
                    inside
              | inr (mid, shut) ↦ cc shut
            ]
    ]
  ]

-- What the check says: a meter depends on itself, or there is an order of the candidates in which the
-- inputs of each come after it.
abbrev pub IsVerdict : List RollupCandidate → List RollupCandidate → Visit → Type 0
IsVerdict candidates order exhausted = ⊥
IsVerdict candidates order cycle = (meter : ℕ) × Depends candidates meter meter
IsVerdict candidates order (settled done) =
    IsOrdered candidates done
    × ((id : ℕ)
        → member id (ids_of order) ≡ true
        → is_candidate id candidates ≡ true
        → member id done ≡ true)

length-ids_of : (candidates : List RollupCandidate) → length (ids_of candidates) ≡ length candidates
length-ids_of [] = refl
length-ids_of (c ∷ candidates) = ap suc (length-ids_of candidates)

verdict :
    (candidates order : List RollupCandidate) (v : Visit)
    → virtual_dependency_cycle candidates order ≡ v
    → IsVerdict candidates order v
unfolding virtual_dependency_cycle
verdict candidates order exhausted h =
    visit_all-finishes candidates _ [] (ids_of order)
      (λ d id known.
        visit-finishes candidates (suc (length candidates)) [] d id
          (omega (arith, fresh-length [] (ids_of candidates), length-ids_of candidates)) known)
      h
verdict candidates order cycle h =
    visit_all-cycle candidates _ [] (ids_of order)
      (λ d id among. visit-cycle candidates (suc (length candidates)) [] d id (λ meter on. cc on)) h
verdict candidates order (settled done) h =
    let (ordered, _, all) =
      visit_all-Settles candidates _ [] (ids_of order)
        (visit-Settles candidates (suc (length candidates)) []) h tt in
    (ordered, all)

-- The check for cycles always finishes: either it names a cycle and some meter depends on itself, or
-- there is an order of the candidates that it visits in which the inputs of each come after it.
pub virtual_dependency_cycle-IsVerdict :
    (candidates order : List RollupCandidate)
    → IsVerdict candidates order (virtual_dependency_cycle candidates order)
virtual_dependency_cycle-IsVerdict candidates order =
    verdict candidates order (virtual_dependency_cycle candidates order) refl
