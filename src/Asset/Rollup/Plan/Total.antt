-- ===== src/Asset/Rollup/Plan/Total.antt =====
-- A plan of `BuildRollupPlan` (backend/internal/asset/aggregation.go) counts no meter with the main
-- meter of its group, and no input with its virtual meter, whatever the order of its loops.
use iot_edge.Prelude.{
  ℕ, ◌≡◌, ◌≢◌, refl, sym, ap, ap₂, subst, ◌∙◌, Bool, true, false, ◌&&◌, ◌||◌, not, Option, none,
  some, List, [], ◌∷◌, ◌==◌, if◌then◌else◌, ok, ok-injective, >>=-eq-ok, fail_if-eq-ok, find,
  find-insert_self, find-insert_ne, if-elim, Bool-cases, inl, inr, ℕ_discrete, arith,
}
use iot_edge.Value.Text.{Text, text_lt}
use iot_edge.Datalogger.Batch.{member}
use iot_edge.Asset.Rollup.{
  RollupCandidate, RollupPlan, invalid_aggregation, Formats, is_include, is_main, is_virtual,
  check_candidates, by_id, ids_of, virtual_dependency_cycle,
}
use iot_edge.Asset.Rollup.Plan.{
  is_included, policy_marks, main_of, loses, Orders, group_of, collect_mains, exclude_others,
  replace_virtuals, insert_uuid, sort_uuids, chosen, as_plan, no_cycle, build_rollup_plan,
}
use iot_edge.Asset.Rollup.Plan.Marks.{
  Marks, Kept, Fewer, Among, exclude_others-Fewer, exclude_others-lost, replace_virtuals-Fewer,
  collect_mains-Main,
}

some-injective : {A : Type 0} {a b : A} → ◌≡◌ {A = Option A} (some a) (some b) → a ≡ b
some-injective h = cc

equal : {a b : ℕ} → a ≡ b → (a == b) ≡ true
equal h = ground (arith, h)

unequal : {a b : ℕ} → a ≢ b → (a == b) ≡ false
unequal h = ground (arith, h)

or_swap : (a b c : Bool) → a || (b || c) ≡ b || (a || c)
or_swap true true c = refl
or_swap true false c = refl
or_swap false b c = refl

and_false : (a : Bool) → a && false ≡ false
and_false true = refl
and_false false = refl

bool_step :
    (b m mid mo r : Bool)
    → r ≡ mo && mid
    → (b ≡ true → m ≡ mid)
    → (if m then b || r else r) ≡ (b || mo) && mid
bool_step true true mid mo r h k = k refl
bool_step true false mid mo r h k = h ∙ ap (λ x. mo && x) (sym (k refl)) ∙ and_false mo ∙ k refl
bool_step false true mid mo r h k = h
bool_step false false mid mo r h k = h

member_if :
    (id c : ℕ) (m : Bool) (rest : List ℕ)
    → member id (if m then c ∷ rest else rest)
      ≡ (if m then (c == id) || member id rest else member id rest)
member_if id c true rest = refl
member_if id c false rest = refl

member_step :
    (id c : ℕ) (m mid mo : Bool) (rest : List ℕ)
    → member id rest ≡ mo && mid
    → (c ≡ id → m ≡ mid)
    → member id (if m then c ∷ rest else rest) ≡ ((c == id) || mo) && mid
member_step id c m mid mo rest h k =
    member_if id c m rest
    ∙ bool_step (c == id) m mid mo (member id rest) h (λ e. k (ground (arith, e)))

second_true : (a : Bool) {b : Bool} → a && b ≡ true → b ≡ true
second_true true h = h
second_true false h = cc

either : (a b : Bool) → ((a && b) || (a && not b)) ≡ a
either true true = refl
either true false = refl
either false b = refl

by_id-same :
    (id : ℕ) (candidates : List RollupCandidate) {c : RollupCandidate}
    → by_id id candidates ≡ some c
    → c.binding.id ≡ id
by_id-same id [] h = cc
by_id-same id (x ∷ candidates) {c} h = elim (Bool-cases (x.binding.id == id)) [
  | inl same ↦
      subst (λ (y : RollupCandidate). y.binding.id ≡ id) (some-injective (rw same at h))
        (ground (arith, same))
  | inr other ↦ by_id-same id candidates (rw other at h)
]

-- The first candidate with an id gives its mark.
policy_marks-by_id :
    (id : ℕ) (candidates : List RollupCandidate) {c : RollupCandidate}
    → by_id id candidates ≡ some c
    → find id (policy_marks candidates) ≡ some (is_include c.binding.rollup_policy)
unfolding policy_marks
policy_marks-by_id id [] h = cc
policy_marks-by_id id (x ∷ candidates) {c} h = elim (ℕ_discrete x.binding.id id) [
  | yes same ↦
      let here : x ≡ c =
        some-injective
          (sym (ap (λ b. if b then some x else by_id id candidates) (equal same)) ∙ h) in
      subst
        (λ i. find i (policy_marks (x ∷ candidates)) ≡ some (is_include c.binding.rollup_policy))
        same
        (find-insert_self x.binding.id (is_include x.binding.rollup_policy)
            (policy_marks candidates)
          ∙ ap (λ (y : RollupCandidate). some (is_include y.binding.rollup_policy)) here)
  | no other ↦
      find-insert_ne x.binding.id id (is_include x.binding.rollup_policy) (policy_marks candidates)
        other
      ∙ policy_marks-by_id id candidates
          (sym (ap (λ b. if b then some x else by_id id candidates) (unequal other)) ∙ h)
]

module _ (formats : Formats) where
  member-insert_uuid :
      (id x : ℕ) (ids : List ℕ) → member id (insert_uuid formats x ids) ≡ (x == id) || member id ids
  member-insert_uuid id x [] = refl
  member-insert_uuid id x (y ∷ ids) =
      if-elim (λ l. member id l ≡ (x == id) || ((y == id) || member id ids))
        (text_lt (formats.uuid_text y) (formats.uuid_text x))
        (λ _.
          ap (λ b. (y == id) || b) (member-insert_uuid id x ids)
          ∙ or_swap (y == id) (x == id) (member id ids))
        (λ _. refl)

  member-sort_uuids : (id : ℕ) (ids : List ℕ) → member id (sort_uuids formats ids) ≡ member id ids
  member-sort_uuids id [] = refl
  member-sort_uuids id (x ∷ ids) =
      member-insert_uuid id x (sort_uuids formats ids)
      ∙ ap (λ b. (x == id) || b) (member-sort_uuids id ids)

  member-chosen :
      (id : ℕ) (marks : Marks) (order : List RollupCandidate)
      → (member id (chosen formats true marks order)
          ≡ member id (ids_of order) && is_included id marks)
        × (member id (chosen formats false marks order)
            ≡ member id (ids_of order) && not (is_included id marks))
  member-chosen id marks [] = (refl, refl)
  member-chosen id marks (c ∷ order) =
      let (kept, left) = member-chosen id marks order in
      (
        member_step id c.binding.id (is_included c.binding.id marks) (is_included id marks)
            (member id (ids_of order)) (chosen formats true marks order) kept
            (λ same. ap (λ i. is_included i marks) same),
        member_step id c.binding.id (not (is_included c.binding.id marks))
            (not (is_included id marks)) (member id (ids_of order))
            (chosen formats false marks order) left
            (λ same. ap (λ i. not (is_included i marks)) same),
      )

-- What a plan promises of its total: it lists just the candidates, each as included or excluded; it
-- includes only what its policy includes, no other meter of the group of a main meter that it
-- includes, and no input of a virtual meter that it includes.
abbrev pub IsTotal : Formats → List RollupCandidate → RollupPlan → Type 0
IsTotal formats candidates plan =
    ((id : ℕ)
      → (member id plan.included || member id plan.excluded) ≡ member id (ids_of candidates))
    × ((id : ℕ) → member id plan.included ≡ true → member id plan.excluded ≡ false)
    × ((id : ℕ) (c : RollupCandidate)
        → by_id id candidates ≡ some c
        → member id plan.included ≡ true
        → is_include c.binding.rollup_policy ≡ true)
    × ((id other : ℕ) (main meter : RollupCandidate)
        → by_id id candidates ≡ some main
        → by_id other candidates ≡ some meter
        → is_main main.binding.meter_role ≡ true
        → group_of formats main ≡ group_of formats meter
        → member id plan.included ≡ true
        → member other plan.included ≡ true
        → id ≡ other)
    × ((id input : ℕ) (meter : RollupCandidate)
        → by_id id candidates ≡ some meter
        → is_virtual meter.binding.meter_role ≡ true
        → member input meter.binding.virtual_inputs ≡ true
        → member id plan.included ≡ true
        → member input plan.included ≡ true
        → ⊥)

-- An order visits every candidate.
abbrev pub Visits : List RollupCandidate → List RollupCandidate → Type 0
Visits candidates order =
    (id : ℕ) (c : RollupCandidate) → by_id id candidates ≡ some c → Among c order

-- An order visits just the candidates.
abbrev pub Lists : List RollupCandidate → List RollupCandidate → Type 0
Lists candidates order = (id : ℕ) → member id (ids_of order) ≡ member id (ids_of candidates)

module _ (formats : Formats) (candidates : List RollupCandidate) (orders : Orders)
    (at_mains : Visits candidates orders.mains) (at_others : Visits candidates orders.others)
    (at_virtuals : Visits candidates orders.virtuals)
    (at_listing : Lists candidates orders.listing) where
  in_plan :
      (id : ℕ) (marks : Marks)
      → member id (as_plan formats orders marks).included ≡ true
      → Kept marks id
  in_plan id marks h = second_true (member id (ids_of orders.listing)) (
      sym (
        member-sort_uuids formats id (chosen formats true marks orders.listing)
        ∙ (member-chosen formats id marks orders.listing).0)
      ∙ h)

  main-alone :
      (mains : List (Text × ℕ)) (marks : Marks) (id other : ℕ) (main meter : RollupCandidate)
      → collect_mains formats (policy_marks candidates) [] orders.mains ≡ ok mains
      → Fewer (exclude_others formats mains orders.others (policy_marks candidates)) marks
      → by_id id candidates ≡ some main
      → by_id other candidates ≡ some meter
      → is_main main.binding.meter_role ≡ true
      → group_of formats main ≡ group_of formats meter
      → Kept marks id
      → Kept marks other
      → id ≡ other
  main-alone mains marks id other main meter collected fewer at_main at_meter main_ same kept
        kept' =
      let first = policy_marks candidates in
      let own = by_id-same id candidates at_main in
      let own' = by_id-same other candidates at_meter in
      let included : Kept first main.binding.id =
        subst (Kept first) (sym own)
          (exclude_others-Fewer formats mains orders.others first id (fewer id kept)) in
      let leads =
        collect_mains-Main formats first [] mains orders.mains main collected
          (at_mains id main at_main) (included, main_) in
      let led : main_of (group_of formats meter) mains ≡ some main.binding.id =
        subst (λ g. main_of g mains ≡ some main.binding.id) same leads in
      elim (ℕ_discrete main.binding.id meter.binding.id) [
        | yes one ↦ sym own ∙ one ∙ own'
        | no two ↦ absurd (
            exclude_others-lost formats mains meter orders.others first
              (at_others other meter at_meter)
              (ap (loses meter.binding.id) led ∙ ap not (unequal two))
              (subst (Kept (exclude_others formats mains orders.others first)) (sym own')
                (fewer other kept')))
      ]

  as_plan-IsTotal :
      (mains : List (Text × ℕ)) (marks : Marks)
      → collect_mains formats (policy_marks candidates) [] orders.mains ≡ ok mains
      → replace_virtuals formats candidates orders.virtuals
          (exclude_others formats mains orders.others (policy_marks candidates))
        ≡ ok marks
      → IsTotal formats candidates (as_plan formats orders marks)
  as_plan-IsTotal mains marks collected replaced =
      let first = policy_marks candidates in
      let listed = ids_of orders.listing in
      let (fewer, gone) =
        replace_virtuals-Fewer formats candidates orders.virtuals
          (exclude_others formats mains orders.others first) replaced in
      let inside = λ (id : ℕ).
        member-sort_uuids formats id (chosen formats true marks orders.listing)
        ∙ (member-chosen formats id marks orders.listing).0 in
      let outside = λ (id : ℕ).
        member-sort_uuids formats id (chosen formats false marks orders.listing)
        ∙ (member-chosen formats id marks orders.listing).1 in
      (
        λ id.
            ap₂ ◌||◌ (inside id) (outside id)
            ∙ either (member id listed) (is_included id marks)
            ∙ at_listing id,
        λ id h.
            outside id
            ∙ ap (λ b. member id listed && not b) (in_plan id marks h)
            ∙ and_false (member id listed),
        λ id c at h.
            sym (
              ap (λ (o : Option Bool). elim o [ none ↦ false | some b ↦ b ])
                (policy_marks-by_id id candidates at))
            ∙ exclude_others-Fewer formats mains orders.others first id
                (fewer id (in_plan id marks h)),
        λ id other main meter at_main at_meter main_ same h k.
            main-alone mains marks id other main meter collected fewer at_main at_meter main_ same
              (in_plan id marks h) (in_plan other marks k),
        λ id input meter at virtual_ among h k.
            gone meter (at_virtuals id meter at) virtual_
              (subst (Kept marks) (sym (by_id-same id candidates at)) (in_plan id marks h)) input
              among (in_plan input marks k),
      )

  -- A plan that is built lists the candidates and nothing else, each as included or excluded, not as
  -- both; and it includes only what its policy includes, no other meter of the group of a main meter
  -- that it includes, and no input of a virtual meter that it includes. The orders of the loops over
  -- mains, others and virtual meters are any that visit every candidate, and the order of the last
  -- loop, which lists them, any that visits the candidates and nothing else.
  pub build_rollup_plan-IsTotal :
      (target : ℕ) {plan : RollupPlan}
      → build_rollup_plan formats target candidates orders ≡ ok plan
      → IsTotal formats candidates plan
  unfolding build_rollup_plan
  build_rollup_plan-IsTotal target h =
      let (_, h1) = fail_if-eq-ok (target == 0) invalid_aggregation _ h in
      let (_, _, h2) = >>=-eq-ok (check_candidates formats target [] [] candidates) _ h1 in
      let (_, _, h3) =
        >>=-eq-ok (no_cycle formats (virtual_dependency_cycle candidates orders.visits)) _ h2 in
      let (mains, collected, h4) =
        >>=-eq-ok (collect_mains formats (policy_marks candidates) [] orders.mains) _ h3 in
      let (marks, replaced, made) =
        >>=-eq-ok
          (replace_virtuals formats candidates orders.virtuals
            (exclude_others formats mains orders.others (policy_marks candidates)))
          _ h4 in
      subst (IsTotal formats candidates) (ok-injective made)
        (as_plan-IsTotal mains marks collected replaced)
