-- ===== src/Plugin/Energy/Calculator.antt =====
-- backend/internal/plugin/energy/calculator.go: `Evaluate` and `Integrate` of a calculator, and
-- `ToKilowatts` of config.go. Messages are left out.
use iot_edge.Prelude.{
  ℕ, Bool, true, false, not, Option, none, some, List, [], ◌∷◌, ◌++◌, if◌then◌else◌, pos, Result,
  ok, err, find,
}
use iot_edge.Value.{DataType, Value}
use iot_edge.Value.Float.{Arithmetic, is_finite64}
use iot_edge.Datalogger.Batch.{RawSample, Quality}
use iot_edge.Plugin.Energy.{
  MetricErrorCode, missing_sample, source_bad, invalid_value, MetricError, DemandMetric,
  EnergyMetric,
}

pub data EnergyError : Type 0 where
  invalid_energy_batch invalid_energy_range unordered_metrics : EnergyError

pub data PowerUnit : Type 0 where
  watt kilowatt megawatt other : PowerUnit

pub record PowerTag : Type 0 where
  pub tag_id : ℕ
  pub unit : PowerUnit

-- The modes "flat" or none, "tag", and any other.
pub data TariffMode : Type 0 where
  flat tag other : TariffMode

pub record FlatTariff : Type 0 where
  pub mode : TariffMode
  pub rate_per_kwh : ℕ
  pub tag_id : ℕ

-- The part of `Config` that the calculator reads.
pub record EnergyConfig : Type 0 where
  pub logger_id : ℕ
  pub electrical_power_tags : List PowerTag
  pub thermal_power_tags : List PowerTag
  pub max_gap_seconds : ℕ
  pub tariff : FlatTariff

pub record RatioMetric : Type 0 where
  pub value : ℕ
  pub valid : Bool

pub record TariffMetric : Type 0 where
  pub rate_per_kwh : ℕ
  pub valid : Bool
  pub errors : List MetricError

pub record BatchMetrics : Type 0 where
  pub batch_at : ℕ
  pub electrical : DemandMetric
  pub thermal : DemandMetric
  pub tariff : TariffMetric
  pub cop : RatioMetric

pub record PeriodMetrics : Type 0 where
  pub from : ℕ
  pub to : ℕ
  pub electrical : EnergyMetric
  pub thermal : EnergyMetric
  pub cost : RatioMetric
  pub cop : RatioMetric

abbrev pub no_ratio : RatioMetric
no_ratio = record { value = 0; valid = false }

unfoldable pub finite_ratio : ℕ → RatioMetric
unfolding is_finite64
finite_ratio value = if is_finite64 value then record { value = value; valid = true } else no_ratio

abbrev or_finite : ℕ → Option ℕ
unfolding is_finite64
or_finite value = if is_finite64 value then some value else none

abbrev pub is_good : Quality → Bool
is_good Quality.good = true
is_good _ = false

abbrev pub is_tag_mode : TariffMode → Bool
is_tag_mode TariffMode.tag = true
is_tag_mode _ = false

abbrev pub is_flat_mode : TariffMode → Bool
is_flat_mode TariffMode.flat = true
is_flat_mode _ = false

abbrev failed_demand : PowerTag → MetricErrorCode → ℕ → Result MetricError ℕ
failed_demand mapping code at = err (record { code = code; tag_id = mapping.tag_id; at = at })

module _ (arithmetic : Arithmetic) where
  unfoldable pub to_kilowatts : PowerUnit → ℕ → Option ℕ
  unfolding is_finite64 or_finite
  to_kilowatts unit value = if not (is_finite64 value) then none else elim unit [
    | watt ↦ or_finite (arithmetic.div value 4652007308841189376)
    | kilowatt ↦ or_finite value
    | megawatt ↦ or_finite (arithmetic.mul value 4652007308841189376)
    | other ↦ none
  ]

  sample_number : DataType → Value → Option ℕ
  sample_number DataType.int16 (Value.int16 z) = some (arithmetic.of_int z)
  sample_number DataType.uint16 (Value.uint16 n) = some (arithmetic.of_int (pos n))
  sample_number DataType.int32 (Value.int32 z) = some (arithmetic.of_int z)
  sample_number DataType.uint32 (Value.uint32 n) = some (arithmetic.of_int (pos n))
  sample_number DataType.float32 (Value.float32 b) = some (arithmetic.widen b)
  sample_number DataType.float64 (Value.float64 b) = some b
  sample_number _ _ = none

  unfoldable pub numeric_sample_value : RawSample → Option ℕ
  unfolding sample_number or_finite
  numeric_sample_value sample = elim (sample_number sample.data_type sample.value) [
    | none ↦ none
    | some value ↦ or_finite value
  ]

  -- The kilowatts of a tag's sample, added to those so far, or the error.
  unfoldable pub demand_of :
      (batch_at : ℕ) → List (ℕ × RawSample) → ℕ → PowerTag → Result MetricError ℕ
  unfolding to_kilowatts numeric_sample_value is_finite64
  demand_of batch_at samples sum mapping = elim (find mapping.tag_id samples) [
    | none ↦ failed_demand mapping missing_sample batch_at
    | some sample ↦
        if not (is_good sample.quality)
        then failed_demand mapping source_bad sample.observed_at
        else elim (numeric_sample_value sample) [
          | none ↦ failed_demand mapping invalid_value sample.observed_at
          | some value ↦ elim (to_kilowatts mapping.unit value) [
            | none ↦ failed_demand mapping invalid_value sample.observed_at
            | some kilowatts ↦
                if is_finite64 (arithmetic.add sum kilowatts)
                then ok (arithmetic.add sum kilowatts)
                else failed_demand mapping invalid_value sample.observed_at
          ]
        ]
  ]

  abbrev add_demand : DemandMetric → Result MetricError ℕ → DemandMetric
  add_demand metric (ok sum) = record {
    kilowatts = sum;
    valid = metric.valid;
    errors = metric.errors;
  }
  add_demand metric (err e) = record {
    kilowatts = metric.kilowatts;
    valid = false;
    errors = metric.errors ++ e ∷ [];
  }

  unfoldable pub demand_loop :
      ℕ → List (ℕ × RawSample) → List PowerTag → DemandMetric → DemandMetric
  unfolding demand_of
  demand_loop batch_at samples [] metric = metric
  demand_loop batch_at samples (mapping ∷ mappings) metric =
      demand_loop batch_at samples mappings
        (add_demand metric (demand_of batch_at samples metric.kilowatts mapping))

  abbrev zero_if_invalid : DemandMetric → DemandMetric
  zero_if_invalid metric = record {
    kilowatts = if metric.valid then metric.kilowatts else 0;
    valid = metric.valid;
    errors = metric.errors;
  }

  unfoldable pub evaluate_demand : ℕ → List PowerTag → List (ℕ × RawSample) → DemandMetric
  unfolding demand_loop
  evaluate_demand batch_at [] samples = record { kilowatts = 0; valid = false; errors = [] }
  evaluate_demand batch_at (mapping ∷ mappings) samples = zero_if_invalid (
      demand_loop batch_at samples (mapping ∷ mappings)
        (record { kilowatts = 0; valid = true; errors = [] }))
