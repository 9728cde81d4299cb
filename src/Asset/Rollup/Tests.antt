-- ===== src/Asset/Rollup/Tests.antt =====
-- Roll-ups of backend/internal/asset/aggregation.go on concrete meters.
use iot_edge.Prelude.{
  ℕ, ◌≡◌, refl, Bool, true, false, Option, none, some, List, [], ◌∷◌, ok, inl, inr, if◌then◌else◌,
  ◌==◌, Bool-cases, ap, sym, ◌∙◌,
}
use iot_edge.Asset.Semantic.{
  Resource, Quantity, VolumeBasis, PressureBasis, kilowatt_hour, Semantic,
}
use iot_edge.Asset.Rollup.{
  MeterRole, RollupPolicy, SourceKind, RollupCandidate, RollupPlan, Formats, by_id,
  virtual_dependency_cycle,
}
use iot_edge.Asset.Rollup.Plan.{Orders, build_rollup_plan}
use iot_edge.Asset.Rollup.Plan.Total.{IsTotal, Visits, build_rollup_plan-IsTotal}
use iot_edge.Asset.Rollup.Cycle.{IsVerdict, virtual_dependency_cycle-IsVerdict}

abbrev plain : Formats
plain = record { uuid_text = λ id. id ∷ []; float_text = λ b. b ∷ []; unit_text = λ u. 69 ∷ [] }

abbrev energy : Semantic
energy = record {
  resource = Resource.electricity;
  quantity = Quantity.energy;
  unit = kilowatt_hour;
  precision = 3;
  reference = record {
    volume_basis = VolumeBasis.unset;
    pressure_basis = PressureBasis.unset;
    temperature_kelvin = none;
    pressure_pascal = none;
  };
}

-- A meter of its own leaf of asset 9, from a tag.
abbrev meter : ℕ → MeterRole → List ℕ → RollupCandidate
meter id role inputs = record {
  binding = record {
    id = id;
    owner_asset_id = 100;
    boundary_asset_id = 9;
    source_key = [];
    source = record { kind = SourceKind.tag; tag_id = id; plugin_instance_id = 0; output_key = [] };
    semantic = energy;
    meter_role = role;
    rollup_policy = RollupPolicy.includes;
    virtual_inputs = inputs;
  };
  owner_ancestors = 9 ∷ [];
  owner_is_leaf = true;
}

-- The third meter is computed from the second, which is computed from the first.
abbrev first : RollupCandidate
first = meter 1 MeterRole.direct []

abbrev second : RollupCandidate
second = meter 2 MeterRole.virtual (1 ∷ [])

abbrev third : RollupCandidate
third = meter 3 MeterRole.virtual (2 ∷ [])

abbrev nested : List RollupCandidate
nested = first ∷ second ∷ third ∷ []

abbrev in_order : List RollupCandidate → Orders
in_order order = record {
  visits = nested;
  mains = nested;
  others = nested;
  virtuals = order;
  listing = nested;
}

abbrev total : RollupPlan
total = record { included = 3 ∷ []; excluded = 1 ∷ 2 ∷ [] }

inner_first : build_rollup_plan plain 9 nested (in_order nested) ≡ ok total
unfolding build_rollup_plan
inner_first = refl

-- With the outer virtual meter visited first, the first meter is counted beside it.
outer_first :
    build_rollup_plan plain 9 nested (in_order (third ∷ second ∷ first ∷ []))
    ≡ ok (record { included = 1 ∷ 3 ∷ []; excluded = 2 ∷ [] })
unfolding build_rollup_plan
outer_first = refl

some-injective : {A : Type 0} {a b : A} → ◌≡◌ {A = Option A} (some a) (some b) → a ≡ b
some-injective h = cc

only :
    (b : Bool) {x c : RollupCandidate}
    → ◌≡◌ {A = Option RollupCandidate} (if b then some x else none) (some c)
    → x ≡ c
only true h = cc
only false h = cc

Visits-nested : Visits nested nested
Visits-nested id c h = elim (Bool-cases (1 == id)) [
  | inl one ↦ inl (
      some-injective
        (sym (ap (λ b. if b then some first else by_id id (second ∷ third ∷ [])) one) ∙ h))
  | inr other ↦
      let h2 = sym (ap (λ b. if b then some first else by_id id (second ∷ third ∷ [])) other) ∙ h in
      elim (Bool-cases (2 == id)) [
        | inl two ↦ inr (
            inl (
              some-injective
                (sym (ap (λ b. if b then some second else by_id id (third ∷ [])) two) ∙ h2)))
        | inr last ↦
            let h3 = sym (ap (λ b. if b then some second else by_id id (third ∷ [])) last) ∙ h2 in
            inr (inr (inl (only (3 == id) h3)))
      ]
]

build_rollup_plan-IsTotal_example : IsTotal plain nested total
build_rollup_plan-IsTotal_example =
    build_rollup_plan-IsTotal plain nested (in_order nested) Visits-nested Visits-nested
      Visits-nested (λ id. refl) 9 inner_first

virtual_dependency_cycle-IsVerdict_example :
    IsVerdict nested nested (virtual_dependency_cycle nested nested)
virtual_dependency_cycle-IsVerdict_example = virtual_dependency_cycle-IsVerdict nested nested
