-- ===== src/Asset/Rollup.antt =====
-- backend/internal/asset/aggregation.go: which measurements make a total. A map of candidates is the
-- list of them. Go leaves the order of iterating over a map open, and may change it from loop to
-- loop: each loop of `BuildRollupPlan` has its order as an argument. The texts of ids and of floats
-- are the parameters of `Formats`.
pub mod Plan
pub mod Cycle
mod Tests
use iot_edge.Prelude.{
  ℕ, zero, suc, ◌+◌, Bool, true, false, ◌&&◌, ◌||◌, not, Option, none, some, List, [], ◌∷◌, ◌++◌,
  map, length, ltb, ◌==◌, if◌then◌else◌, Result, ok, err, ◌>>=◌, ◌>>◌, fail_if, find, insert,
}
use iot_edge.Value.Text.{text_member, Text, codes, text_eq, text_lt, is_empty}
use iot_edge.Datalogger.Batch.{member}
use iot_edge.Asset.Semantic.{
  Resource, Quantity, VolumeBasis, PressureBasis, MeasurementUnit, ReferenceCondition, Semantic,
  UnitDefinition, validate_semantic, canonical_unit,
}

pub data MeterRole : Type 0 where
  direct main submeter virtual other : MeterRole

pub data RollupPolicy : Type 0 where
  includes excludes other : RollupPolicy

pub data SourceKind : Type 0 where
  tag plugin_output other : SourceKind

pub record SourceReference : Type 0 where
  pub kind : SourceKind
  pub tag_id : ℕ
  pub plugin_instance_id : ℕ
  pub output_key : Text

pub record MeasurementBinding : Type 0 where
  pub id : ℕ
  pub owner_asset_id : ℕ
  pub boundary_asset_id : ℕ
  pub source_key : Text
  pub source : SourceReference
  pub semantic : Semantic
  pub meter_role : MeterRole
  pub rollup_policy : RollupPolicy
  pub virtual_inputs : List ℕ

pub record RollupCandidate : Type 0 where
  pub binding : MeasurementBinding
  pub owner_ancestors : List ℕ
  pub owner_is_leaf : Bool

pub record RollupPlan : Type 0 where
  pub included : List ℕ
  pub excluded : List ℕ

pub data RollupError : Type 0 where
  invalid_binding invalid_aggregation duplicate_measurement conflicting_meters virtual_meter_cycle
        out_of_fuel :
      RollupError

-- `SourceReference.Validate`
unfoldable pub validate_source : SourceReference → Result RollupError (Unit {0})
validate_source s = elim s.kind [
  | SourceKind.tag ↦
      fail_if ((s.tag_id == 0) || not (s.plugin_instance_id == 0) || not (is_empty s.output_key))
        invalid_binding
  | SourceKind.plugin_output ↦
      fail_if (not (s.tag_id == 0) || (s.plugin_instance_id == 0) || is_empty s.output_key)
        invalid_binding
  | SourceKind.other ↦ err invalid_binding
]

-- `uuid.UUID.String` and `strconv.FormatFloat`, and the strings of units.
pub record Formats : Type 0 where
  pub uuid_text : ℕ → Text
  pub float_text : ℕ → Text
  pub unit_text : MeasurementUnit → Text

abbrev resource_text : Resource → Text
resource_text Resource.electricity = codes "electricity"
resource_text Resource.thermal = codes "thermal"
resource_text Resource.compressed_air = codes "compressed_air"
resource_text Resource.steam = codes "steam"
resource_text Resource.gas = codes "gas"
resource_text Resource.water = codes "water"
resource_text Resource.solar = codes "solar"
resource_text Resource.custom = codes "custom"
resource_text Resource.other = []

abbrev quantity_text : Quantity → Text
quantity_text Quantity.power = codes "power"
quantity_text Quantity.energy = codes "energy"
quantity_text Quantity.flow_rate = codes "flow_rate"
quantity_text Quantity.volume = codes "volume"
quantity_text Quantity.pressure = codes "pressure"
quantity_text Quantity.temperature = codes "temperature"
quantity_text Quantity.ratio = codes "ratio"
quantity_text Quantity.state = codes "state"
quantity_text Quantity.cost = codes "cost"
quantity_text Quantity.emissions = codes "emissions"
quantity_text Quantity.custom = codes "custom"
quantity_text Quantity.other = []

abbrev volume_text : VolumeBasis → Text
volume_text VolumeBasis.actual = codes "actual"
volume_text VolumeBasis.normalized = codes "normalized"
volume_text _ = []

abbrev pressure_text : PressureBasis → Text
pressure_text PressureBasis.absolute = codes "absolute"
pressure_text PressureBasis.gauge = codes "gauge"
pressure_text _ = []

-- A pointer to a float64, where nil counts as 0.0.
abbrev or_zero : Option ℕ → ℕ
or_zero none = 0
or_zero (some b) = b

module _ (formats : Formats) where
  unfoldable pub source_reference_key : SourceReference → Text
  source_reference_key s = elim s.kind [
    | SourceKind.tag ↦ codes "tag:" ++ formats.uuid_text s.tag_id
    | SourceKind.plugin_output ↦
        codes "plugin_output:" ++ formats.uuid_text s.plugin_instance_id ++ 58 ∷ s.output_key
    | SourceKind.other ↦ []
  ]

  unfoldable pub source_key : MeasurementBinding → Text
  unfolding validate_source source_reference_key
  source_key b = elim (validate_source b.source) [
    | ok valid ↦ source_reference_key b.source
    | err e ↦ b.source_key
  ]

  abbrev reference_key : ReferenceCondition → Text
  reference_key r =
      volume_text r.volume_basis
      ++ 0 ∷ pressure_text r.pressure_basis
      ++ 0 ∷ formats.float_text (or_zero r.temperature_kelvin)
      ++ 0 ∷ formats.float_text (or_zero r.pressure_pascal)

  abbrev canonical_text : Semantic → Text
  canonical_text s = elim (canonical_unit s) [ ok u ↦ formats.unit_text u | err e ↦ [] ]

  unfoldable pub aggregation_group : MeasurementBinding → Text
  unfolding canonical_unit
  aggregation_group b =
      formats.uuid_text b.boundary_asset_id
      ++ 0 ∷ resource_text b.semantic.resource
      ++ 0 ∷ quantity_text b.semantic.quantity
      ++ 0 ∷ canonical_text b.semantic
      ++ 0 ∷ reference_key b.semantic.reference

abbrev has_semantic : Semantic → Bool
has_semantic s = elim (validate_semantic s) [ ok d ↦ true | err e ↦ false ]

abbrev no_inputs : List ℕ → Bool
no_inputs [] = true
no_inputs (id ∷ ids) = false

-- The `switch` over roles.
abbrev fits_role : MeterRole → List ℕ → Bool
fits_role MeterRole.virtual inputs = not (no_inputs inputs)
fits_role MeterRole.other inputs = false
fits_role _ inputs = no_inputs inputs

abbrev is_policy : RollupPolicy → Bool
is_policy RollupPolicy.other = false
is_policy _ = true

abbrev pub is_include : RollupPolicy → Bool
is_include RollupPolicy.includes = true
is_include _ = false

abbrev pub is_main : MeterRole → Bool
is_main MeterRole.main = true
is_main _ = false

abbrev pub is_virtual : MeterRole → Bool
is_virtual MeterRole.virtual = true
is_virtual _ = false

module _ (formats : Formats) where
  -- `RollupCandidate.Validate`
  unfoldable pub validate_candidate : RollupCandidate → Result RollupError (Unit {0})
  unfolding source_key validate_semantic
  validate_candidate c =
      fail_if
        ((c.binding.id == 0)
          || (c.binding.owner_asset_id == 0)
          || (c.binding.boundary_asset_id == 0)
          || is_empty (source_key formats c.binding)
          || not c.owner_is_leaf
          || not (has_semantic c.binding.semantic))
        invalid_aggregation
      >> fail_if
          (not (member c.binding.boundary_asset_id c.owner_ancestors)
            && not (c.binding.owner_asset_id == c.binding.boundary_asset_id))
          invalid_aggregation
      >> fail_if (not (fits_role c.binding.meter_role c.binding.virtual_inputs)) invalid_aggregation
      >> fail_if (not (is_policy c.binding.rollup_policy)) invalid_aggregation

  -- The first loop of `BuildRollupPlan`: ids and sources that were seen before.
  unfoldable pub check_candidates :
      ℕ → List ℕ → List Text → List RollupCandidate → Result RollupError (Unit {0})
  unfolding validate_candidate source_key
  check_candidates target ids sources [] = ok tt
  check_candidates target ids sources (c ∷ candidates) =
      validate_candidate c
      >> fail_if (not (c.binding.owner_asset_id == target) && not (member target c.owner_ancestors))
          invalid_aggregation
      >> fail_if (member c.binding.id ids) duplicate_measurement
      >> fail_if (text_member (source_key formats c.binding) sources) duplicate_measurement
      >> check_candidates target (c.binding.id ∷ ids) (source_key formats c.binding ∷ sources)
          candidates

-- `byID[id]`
abbrev pub by_id : ℕ → List RollupCandidate → Option RollupCandidate
by_id id [] = none
by_id id (c ∷ candidates) =
    let rest = by_id id candidates in if c.binding.id == id then some c else rest

abbrev pub inputs_of : ℕ → List RollupCandidate → List ℕ
inputs_of id candidates = elim (by_id id candidates) [
  | none ↦ []
  | some c ↦ c.binding.virtual_inputs
]

abbrev pub is_candidate : ℕ → List RollupCandidate → Bool
is_candidate id candidates = elim (by_id id candidates) [ none ↦ false | some c ↦ true ]

-- What a visit finds: a cycle, or none and then the ids in state 2.
pub data Visit : Type 0 where
  exhausted cycle : Visit
  settled : (done : List ℕ) → Visit

abbrev pub then_visit : Visit → (List ℕ → Visit) → Visit
then_visit (settled done) f = f done
then_visit cycle f = cycle
then_visit exhausted f = exhausted

-- The loop over the inputs that are candidates.
abbrev pub visit_all : (List ℕ → ℕ → Visit) → List RollupCandidate → List ℕ → List ℕ → Visit
visit_all visit candidates done [] = settled done
visit_all visit candidates done (id ∷ ids) =
    if is_candidate id candidates
    then then_visit (visit done id) (λ later. visit_all visit candidates later ids)
    else visit_all visit candidates done ids

-- The recursion of `virtualDependencyCycle`, on fuel. The ids in state 1 are those of the calls that
-- are under way, the path.
unfoldable pub visit : ℕ → List RollupCandidate → List ℕ → List ℕ → ℕ → Visit
visit zero candidates path done id = exhausted
visit (suc n) candidates path done id =
    if member id path
    then cycle
    else if member id done
    then settled done
    else then_visit
        (visit_all (visit n candidates (id ∷ path)) candidates done (inputs_of id candidates))
        (λ later. settled (id ∷ later))

abbrev pub ids_of : List RollupCandidate → List ℕ
ids_of [] = []
ids_of (c ∷ candidates) = c.binding.id ∷ ids_of candidates

-- `virtualDependencyCycle`, with the candidates in the order of its loop.
unfoldable pub virtual_dependency_cycle : List RollupCandidate → List RollupCandidate → Visit
unfolding visit
virtual_dependency_cycle candidates order =
    visit_all (visit (suc (length candidates)) candidates []) candidates [] (ids_of order)
