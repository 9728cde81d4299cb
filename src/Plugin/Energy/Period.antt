-- ===== src/Plugin/Energy/Period.antt =====
-- backend/internal/plugin/energy/calculator.go: `Evaluate`, and `Integrate` with the costs and ratios of
-- a period.
use iot_edge.Prelude.{
  ℕ, ◌-◌, ◌*◌, ◌%◌, ◌<◌, ◌≡◌, Bool, true, false, ◌&&◌, ◌||◌, not, Option, none, some, List, [], ◌∷◌,
  map, ltb, ◌==◌, if◌then◌else◌, Result, ok, err, ◌>>=◌, ◌>>◌, fail_if, find, insert, arith, refl,
  subst, >>=-eq-ok, fail_if-eq-ok, ok-injective,
}
use iot_edge.Value.Float.{Arithmetic, is_finite64, float_le, float_lt}
use iot_edge.Datalogger.Batch.{RawSample, RawBatch}
use iot_edge.Plugin.Energy.{
  missing_sample, source_bad, invalid_value, MetricErrorCode, DemandMetric, BatchDemand,
  EnergyMetric, two63, two64, add64, lt64, time_sub, later_time, earlier_time, segment_energy,
  integrate_demand,
}
use iot_edge.Plugin.Energy.Calculator.{
  EnergyError, invalid_energy_batch, invalid_energy_range, unordered_metrics, FlatTariff,
  EnergyConfig, RatioMetric, TariffMetric, BatchMetrics, PeriodMetrics, no_ratio, finite_ratio,
  is_good, is_tag_mode, is_flat_mode, numeric_sample_value, evaluate_demand,
}
use iot_edge.Plugin.Energy.Coverage.{IsRising, IsCovered, integrate_demand-IsCovered}

-- The loop over the samples of a batch.
unfoldable pub samples_by_tag :
    List RawSample → List (ℕ × RawSample) → Result EnergyError (List (ℕ × RawSample))
samples_by_tag [] samples = ok samples
samples_by_tag (s ∷ rest) samples =
    fail_if (s.tag_id == 0) invalid_energy_batch
    >> (elim (find s.tag_id samples) [ none ↦ ok tt | some seen ↦ err invalid_energy_batch ])
    >> samples_by_tag rest (insert s.tag_id s samples)

abbrev select : (BatchMetrics → DemandMetric) → BatchMetrics → BatchDemand
select demand m = record { batch_at = m.batch_at; demand = demand m }

-- The loop over the metrics, which must have rising times.
unfoldable pub check_order : Option ℕ → List BatchMetrics → Result EnergyError (Unit {0})
check_order before [] = ok tt
check_order before (m ∷ metrics) =
    fail_if (m.batch_at == 0) invalid_energy_batch
    >> fail_if (elim before [ none ↦ false | some t ↦ not (ltb t m.batch_at) ]) unordered_metrics
    >> check_order (some m.batch_at) metrics

abbrev failed_tariff : FlatTariff → MetricErrorCode → ℕ → TariffMetric
failed_tariff tariff code at = record {
  rate_per_kwh = 0;
  valid = false;
  errors = record { code = code; tag_id = tariff.tag_id; at = at } ∷ [];
}

in_range : (from to : ℕ) → (from == 0 || to == 0 || not (ltb from to)) ≡ false → from < to
in_range from to h = ground (arith, h)

module _ (arithmetic : Arithmetic) where
  unfoldable pub evaluate_tariff : ℕ → FlatTariff → List (ℕ × RawSample) → TariffMetric
  unfolding numeric_sample_value float_lt
  evaluate_tariff batch_at tariff samples =
      if is_flat_mode tariff.mode
      then record { rate_per_kwh = tariff.rate_per_kwh; valid = true; errors = [] }
      else elim (find tariff.tag_id samples) [
        | none ↦ failed_tariff tariff missing_sample batch_at
        | some sample ↦
            if not (is_good sample.quality)
            then failed_tariff tariff source_bad sample.observed_at
            else elim (numeric_sample_value arithmetic sample) [
              | none ↦ failed_tariff tariff invalid_value sample.observed_at
              | some value ↦
                  if float_lt value 0
                  then failed_tariff tariff invalid_value sample.observed_at
                  else record { rate_per_kwh = value; valid = true; errors = [] }
            ]
      ]

  unfoldable pub instantaneous_cop : DemandMetric → DemandMetric → RatioMetric
  unfolding float_le is_finite64 finite_ratio
  instantaneous_cop electrical thermal =
      if not electrical.valid || not thermal.valid
      then no_ratio
      else if float_le electrical.kilowatts 0
      then no_ratio
      else finite_ratio (arithmetic.div thermal.kilowatts electrical.kilowatts)

  unfoldable pub evaluate : EnergyConfig → RawBatch → Result EnergyError BatchMetrics
  unfolding samples_by_tag evaluate_demand evaluate_tariff instantaneous_cop
  evaluate c batch =
      fail_if (not (batch.logger_id == c.logger_id) || batch.batch_at == 0) invalid_energy_batch
      >> (samples_by_tag batch.samples [] >>= λ samples.
          let electrical =
            evaluate_demand arithmetic batch.batch_at c.electrical_power_tags samples in
          let thermal = evaluate_demand arithmetic batch.batch_at c.thermal_power_tags samples in
          ok (record {
            batch_at = batch.batch_at;
            electrical = electrical;
            thermal = thermal;
            tariff = evaluate_tariff batch.batch_at c.tariff samples;
            cop = instantaneous_cop electrical thermal;
          }))

  unfoldable pub period_cost : EnergyMetric → ℕ → RatioMetric
  unfolding is_finite64 finite_ratio
  period_cost electrical rate =
      if electrical.covered == 0
      then no_ratio
      else finite_ratio (arithmetic.mul electrical.kilowatt_hours rate)

  unfoldable pub period_cop : EnergyMetric → EnergyMetric → RatioMetric
  unfolding float_le is_finite64 finite_ratio
  period_cop electrical thermal =
      if electrical.covered == 0 || thermal.covered == 0
      then no_ratio
      else if float_le electrical.kilowatt_hours 0
      then no_ratio
      else finite_ratio (arithmetic.div thermal.kilowatt_hours electrical.kilowatt_hours)

  module _ (max_gap from to : ℕ) where
    -- Whether the loop over tariffs takes a segment.
    abbrev is_priced : (left right : BatchMetrics) → Bool
    is_priced left right =
        ltb (later_time from left.batch_at) (earlier_time to right.batch_at)
        && not (lt64 max_gap (time_sub right.batch_at left.batch_at))
        && left.electrical.valid
        && right.electrical.valid
        && left.tariff.valid

    -- The cost and the time so far after a segment, or none where the cost is not finite.
    unfoldable pub add_cost : (left right : BatchMetrics) → (value covered : ℕ) → Option (ℕ × ℕ)
    unfolding segment_energy is_finite64
    add_cost left right value covered =
        let segment_from = later_time from left.batch_at in
        let segment_to = earlier_time to right.batch_at in
        let cost =
          arithmetic.mul
            (segment_energy arithmetic (select (λ m. m.electrical) left)
              (select (λ m. m.electrical) right) segment_from segment_to)
            left.tariff.rate_per_kwh in
        let sum = arithmetic.add value cost in
        if not (is_priced left right)
        then some (value, covered)
        else if not (is_finite64 cost) || not (is_finite64 sum)
        then none
        else some (sum, add64 covered (time_sub segment_to segment_from))

    unfoldable pub cost_loop :
        BatchMetrics → List BatchMetrics → (value covered : ℕ) → Option (ℕ × ℕ)
    unfolding add_cost
    cost_loop left [] value covered = some (value, covered)
    cost_loop left (right ∷ metrics) value covered = elim (add_cost left right value covered) [
      | none ↦ none
      | some (sum, more) ↦ cost_loop right metrics sum more
    ]

    abbrev tag_cost : EnergyMetric → Option (ℕ × ℕ) → RatioMetric
    tag_cost electrical none = no_ratio
    tag_cost electrical (some (value, covered)) =
        if covered == electrical.covered then record { value = value; valid = true } else no_ratio

    unfoldable pub period_tag_cost : List BatchMetrics → EnergyMetric → RatioMetric
    unfolding cost_loop
    period_tag_cost [] electrical =
        if electrical.covered == 0 then no_ratio else tag_cost electrical (some (0, 0))
    period_tag_cost (m ∷ metrics) electrical =
        if electrical.covered == 0 then no_ratio else tag_cost electrical (cost_loop m metrics 0 0)

  abbrev pub max_gap_of : EnergyConfig → ℕ
  max_gap_of c = (c.max_gap_seconds * 1000000000) % two64

  unfoldable pub integrate :
      EnergyConfig → List BatchMetrics → (from to : ℕ) → Result EnergyError PeriodMetrics
  unfolding check_order period_tag_cost period_cost period_cop integrate_demand
  integrate c metrics from to =
      let gap = max_gap_of c in
      let electrical =
        integrate_demand arithmetic gap from to (map (select (λ m. m.electrical)) metrics) in
      let thermal =
        integrate_demand arithmetic gap from to (map (select (λ m. m.thermal)) metrics) in
      fail_if (from == 0 || to == 0 || not (ltb from to)) invalid_energy_range
      >> check_order none metrics
      >> ok (record {
        from = from;
        to = to;
        electrical = electrical;
        thermal = thermal;
        cost =
            if is_tag_mode c.tariff.mode
            then period_tag_cost gap from to metrics electrical
            else period_cost electrical c.tariff.rate_per_kwh;
        cop = period_cop electrical thermal;
      })

  check_order-IsRising :
      (demand : BatchMetrics → DemandMetric) (left : BatchMetrics) (metrics : List BatchMetrics)
      → check_order (some left.batch_at) metrics ≡ ok tt
      → IsRising (select demand left) (map (select demand) metrics)
  unfolding check_order
  check_order-IsRising demand left [] h = tt
  check_order-IsRising demand left (m ∷ metrics) h =
      let (_, timed) = fail_if-eq-ok (m.batch_at == 0) invalid_energy_batch _ h in
      let (later, rest) =
        fail_if-eq-ok (not (ltb left.batch_at m.batch_at)) unordered_metrics _ timed in
      (ground (arith, later), check_order-IsRising demand m metrics rest)

  checked-IsCovered :
      (demand : BatchMetrics → DemandMetric) (gap from to : ℕ) (metrics : List BatchMetrics)
      → from < to
      → to - from < two63
      → check_order none metrics ≡ ok tt
      → IsCovered from to (integrate_demand arithmetic gap from to (map (select demand) metrics))
  unfolding check_order integrate_demand
  checked-IsCovered demand gap from to [] range bound h = (ground arith, ground arith, refl)
  checked-IsCovered demand gap from to (m ∷ metrics) range bound h =
      let (_, timed) = fail_if-eq-ok (m.batch_at == 0) invalid_energy_batch _ h in
      integrate_demand-IsCovered from to range bound arithmetic gap (select demand m)
        (map (select demand) metrics) (check_order-IsRising demand m metrics timed)

  -- Where the metrics of a period are accepted and the period is shorter than 2^63 ns, its electrical
  -- and its thermal energy are finite and account for the whole period: what is covered and the times of
  -- the issues add up to the period, and what is reported as skipped is the time of the issues.
  pub integrate-IsCovered :
      (c : EnergyConfig) (metrics : List BatchMetrics) (from to : ℕ) (result : PeriodMetrics)
      → to - from < two63
      → integrate c metrics from to ≡ ok result
      → IsCovered from to result.electrical × IsCovered from to result.thermal
  unfolding integrate
  integrate-IsCovered c metrics from to result bound h =
      let (range, checked) =
        fail_if-eq-ok (from == 0 || to == 0 || not (ltb from to)) invalid_energy_range _ h in
      let (_, ordered, done) = >>=-eq-ok (check_order none metrics) _ checked in
      let same = ok-injective done in
      let is_range = in_range from to range in
      (
        subst (λ r. IsCovered from to r.electrical) same
            (checked-IsCovered (λ m. m.electrical) (max_gap_of c) from to metrics is_range bound
              ordered),
        subst (λ r. IsCovered from to r.thermal) same
            (checked-IsCovered (λ m. m.thermal) (max_gap_of c) from to metrics is_range bound
              ordered),
      )
