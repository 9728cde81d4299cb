-- ===== src/Asset/Semantic.antt =====
-- backend/internal/asset/semantic.go: what a measurement means. Of a unit's definition the dimension,
-- the canonical unit and the volume basis; the scale and the offset, which only conversions of values
-- use, are left out. A unit that is not of the table is its text.
use iot_edge.Prelude.{
  ℕ, Bool, true, false, ◌&&◌, ◌||◌, not, Option, none, some, [], ◌∷◌, leb, ltb, ◌==◌, length,
  if◌then◌else◌, Result, ok, err, ◌>>=◌, ◌>>◌, fail_if,
}
use iot_edge.Value.Float.{float_le}
use iot_edge.Value.Text.{Text, codes}

pub data Resource : Type 0 where
  electricity thermal compressed_air steam gas water solar custom other : Resource

pub data Quantity : Type 0 where
  power energy flow_rate volume pressure temperature ratio state cost emissions custom other :
      Quantity

pub data Dimension : Type 0 where
  power energy flow_rate volume pressure temperature ratio state currency emissions custom :
      Dimension

pub data MeasurementUnit : Type 0 where
  watt kilowatt megawatt watt_hour kilowatt_hour megawatt_hour : MeasurementUnit
  cubic_metre normal_cubic_metre : MeasurementUnit
  cubic_metre_per_second cubic_metre_per_hour : MeasurementUnit
  normal_cubic_metre_per_second normal_cubic_metre_per_hour : MeasurementUnit
  pascal kilopascal bar kelvin celsius fahrenheit one percent boolean : MeasurementUnit
  gram_co2 kilogram_co2 tonne_co2 : MeasurementUnit
  named : Text → MeasurementUnit

-- The strings of a basis; `unset` is the empty one.
pub data VolumeBasis : Type 0 where
  unset actual normalized other : VolumeBasis

pub data PressureBasis : Type 0 where
  unset absolute gauge other : PressureBasis

pub record ReferenceCondition : Type 0 where
  pub volume_basis : VolumeBasis
  pub pressure_basis : PressureBasis
  pub temperature_kelvin : Option ℕ
  pub pressure_pascal : Option ℕ

pub record Semantic : Type 0 where
  pub resource : Resource
  pub quantity : Quantity
  pub unit : MeasurementUnit
  pub precision : ℕ
  pub reference : ReferenceCondition

pub record UnitDefinition : Type 0 where
  pub dimension : Dimension
  pub canonical : MeasurementUnit
  pub volume : VolumeBasis

pub data SemanticError : Type 0 where
  invalid_semantic unknown_unit incompatible_unit ambiguous_reference invalid_precision :
      SemanticError

abbrev defined : Dimension → MeasurementUnit → VolumeBasis → Option UnitDefinition
defined d u v = some (record { dimension = d; canonical = u; volume = v })

-- `unitDefinitions`
unfoldable pub unit_definition : MeasurementUnit → Option UnitDefinition
unit_definition watt = defined Dimension.power watt VolumeBasis.unset
unit_definition kilowatt = defined Dimension.power watt VolumeBasis.unset
unit_definition megawatt = defined Dimension.power watt VolumeBasis.unset
unit_definition watt_hour = defined Dimension.energy watt_hour VolumeBasis.unset
unit_definition kilowatt_hour = defined Dimension.energy watt_hour VolumeBasis.unset
unit_definition megawatt_hour = defined Dimension.energy watt_hour VolumeBasis.unset
unit_definition cubic_metre = defined Dimension.volume cubic_metre VolumeBasis.actual
unit_definition normal_cubic_metre =
    defined Dimension.volume normal_cubic_metre VolumeBasis.normalized
unit_definition cubic_metre_per_second =
    defined Dimension.flow_rate cubic_metre_per_second VolumeBasis.actual
unit_definition cubic_metre_per_hour =
    defined Dimension.flow_rate cubic_metre_per_second VolumeBasis.actual
unit_definition normal_cubic_metre_per_second =
    defined Dimension.flow_rate normal_cubic_metre_per_second VolumeBasis.normalized
unit_definition normal_cubic_metre_per_hour =
    defined Dimension.flow_rate normal_cubic_metre_per_second VolumeBasis.normalized
unit_definition pascal = defined Dimension.pressure pascal VolumeBasis.unset
unit_definition kilopascal = defined Dimension.pressure pascal VolumeBasis.unset
unit_definition bar = defined Dimension.pressure pascal VolumeBasis.unset
unit_definition kelvin = defined Dimension.temperature kelvin VolumeBasis.unset
unit_definition celsius = defined Dimension.temperature kelvin VolumeBasis.unset
unit_definition fahrenheit = defined Dimension.temperature kelvin VolumeBasis.unset
unit_definition one = defined Dimension.ratio one VolumeBasis.unset
unit_definition percent = defined Dimension.ratio one VolumeBasis.unset
unit_definition boolean = defined Dimension.state boolean VolumeBasis.unset
unit_definition gram_co2 = defined Dimension.emissions kilogram_co2 VolumeBasis.unset
unit_definition kilogram_co2 = defined Dimension.emissions kilogram_co2 VolumeBasis.unset
unit_definition tonne_co2 = defined Dimension.emissions kilogram_co2 VolumeBasis.unset
unit_definition (named s) = none

-- `quantityDimensions`
unfoldable pub quantity_dimension : Quantity → Option Dimension
quantity_dimension Quantity.power = some Dimension.power
quantity_dimension Quantity.energy = some Dimension.energy
quantity_dimension Quantity.flow_rate = some Dimension.flow_rate
quantity_dimension Quantity.volume = some Dimension.volume
quantity_dimension Quantity.pressure = some Dimension.pressure
quantity_dimension Quantity.temperature = some Dimension.temperature
quantity_dimension Quantity.ratio = some Dimension.ratio
quantity_dimension Quantity.state = some Dimension.state
quantity_dimension Quantity.cost = some Dimension.currency
quantity_dimension Quantity.emissions = some Dimension.emissions
quantity_dimension Quantity.custom = some Dimension.custom
quantity_dimension Quantity.other = none

unfoldable pub dimension_eq : Dimension → Dimension → Bool
dimension_eq Dimension.power Dimension.power = true
dimension_eq Dimension.energy Dimension.energy = true
dimension_eq Dimension.flow_rate Dimension.flow_rate = true
dimension_eq Dimension.volume Dimension.volume = true
dimension_eq Dimension.pressure Dimension.pressure = true
dimension_eq Dimension.temperature Dimension.temperature = true
dimension_eq Dimension.ratio Dimension.ratio = true
dimension_eq Dimension.state Dimension.state = true
dimension_eq Dimension.currency Dimension.currency = true
dimension_eq Dimension.emissions Dimension.emissions = true
dimension_eq Dimension.custom Dimension.custom = true
dimension_eq _ _ = false

abbrev is_upper : ℕ → Bool
is_upper c = leb 65 c && leb c 90

abbrev is_lower : ℕ → Bool
is_lower c = leb 97 c && leb c 122

-- `currencyUnitPattern`
unfoldable pub is_currency_unit : Text → Bool
is_currency_unit (a ∷ b ∷ c ∷ []) = is_upper a && is_upper b && is_upper c
is_currency_unit _ = false

abbrev is_custom_rest : Text → Bool
is_custom_rest [] = true
is_custom_rest (c ∷ s) =
    (is_lower c || (leb 48 c && leb c 57) || (c == 95) || (c == 46) || (c == 45))
    && is_custom_rest s

abbrev is_custom_name : Text → Bool
is_custom_name [] = false
is_custom_name (c ∷ s) = is_lower c && leb (length s) 23 && is_custom_rest s

abbrev after_prefix : Text → Text → Option Text
after_prefix [] s = some s
after_prefix (x ∷ prefix) [] = none
after_prefix (x ∷ prefix) (c ∷ s) =
    let rest = after_prefix prefix s in if x == c then rest else none

-- `customUnitPattern`
unfoldable pub is_custom_unit : Text → Bool
is_custom_unit s = elim (after_prefix (codes "custom:") s) [
  | none ↦ false
  | some name ↦ is_custom_name name
]

-- `resolveUnitDefinition` of a unit that is not of the table.
unfoldable pub dynamic_definition : Quantity → Text → Option UnitDefinition
unfolding is_currency_unit is_custom_unit
dynamic_definition Quantity.cost s =
    if is_currency_unit s then defined Dimension.currency (named s) VolumeBasis.unset else none
dynamic_definition Quantity.custom s =
    if is_custom_unit s then defined Dimension.custom (named s) VolumeBasis.unset else none
dynamic_definition _ s = none

unfoldable pub resolve_unit_definition : Quantity → MeasurementUnit → Option UnitDefinition
unfolding unit_definition dynamic_definition
resolve_unit_definition q (named s) = dynamic_definition q s
resolve_unit_definition q u = unit_definition u

-- `value == nil || *value <= 0`, as a float64.
abbrev is_missing : Option ℕ → Bool
is_missing none = true
is_missing (some b) = float_le b 0

-- The first `if` of `validateReference`.
unfoldable pub validate_volume : VolumeBasis → ReferenceCondition → Result SemanticError (Unit {0})
unfolding float_le
validate_volume VolumeBasis.normalized r = elim r.volume_basis [
  | VolumeBasis.normalized ↦
      fail_if (is_missing r.temperature_kelvin || is_missing r.pressure_pascal) ambiguous_reference
  | _ ↦ err ambiguous_reference
]
validate_volume VolumeBasis.actual r = elim r.volume_basis [
  | VolumeBasis.actual ↦ ok tt
  | _ ↦ err ambiguous_reference
]
validate_volume _ r = elim r.volume_basis [ VolumeBasis.unset ↦ ok tt | _ ↦ err invalid_semantic ]

-- The second.
unfoldable pub validate_pressure : Dimension → PressureBasis → Result SemanticError (Unit {0})
validate_pressure Dimension.pressure PressureBasis.absolute = ok tt
validate_pressure Dimension.pressure PressureBasis.gauge = ok tt
validate_pressure Dimension.pressure _ = err ambiguous_reference
validate_pressure _ PressureBasis.unset = ok tt
validate_pressure _ _ = err invalid_semantic

unfoldable pub validate_reference :
    UnitDefinition → ReferenceCondition → Result SemanticError (Unit {0})
unfolding validate_volume validate_pressure
validate_reference d r =
    validate_volume d.volume r >> validate_pressure d.dimension r.pressure_basis

unfoldable pub valid_resource : Resource → Bool
valid_resource Resource.other = false
valid_resource _ = true

abbrev or_error {ℓ} : {A : Type ℓ} → SemanticError → Option A → Result SemanticError A
or_error e none = err e
or_error e (some a) = ok a

-- `Validate`, with the definition of the unit that it finds.
unfoldable pub validate_semantic : Semantic → Result SemanticError UnitDefinition
unfolding valid_resource quantity_dimension resolve_unit_definition dimension_eq validate_reference
validate_semantic s =
    fail_if (ltb 12 s.precision) invalid_precision
    >> fail_if (not (valid_resource s.resource)) invalid_semantic
    >> (or_error invalid_semantic (quantity_dimension s.quantity) >>= λ dimension.
        or_error unknown_unit (resolve_unit_definition s.quantity s.unit) >>= λ definition.
        fail_if (not (dimension_eq definition.dimension dimension)) incompatible_unit
        >> validate_reference definition s.reference
        >> ok definition)

unfoldable pub canonical_unit : Semantic → Result SemanticError MeasurementUnit
unfolding validate_semantic
canonical_unit s = validate_semantic s >>= λ definition. ok definition.canonical
