-- ===== src/Plugin/Energy/Tests.antt =====
-- Runs of `integrateDemand` (backend/internal/plugin/energy/calculator.go), with floats that are exact
-- for whole numbers only.
use iot_edge.Prelude.{ℕ, ◌≡◌, refl, true, false, none, List, [], ◌∷◌, pos, arith, ok}
use iot_edge.Value.Float.{Arithmetic}
use iot_edge.Plugin.Energy.{BatchDemand, stale_gap, invalid_value, no_coverage, integrate_demand}
use iot_edge.Plugin.Energy.Coverage.{IsCovered}
use iot_edge.Plugin.Energy.Calculator.{
  kilowatt, TariffMode, EnergyConfig, BatchMetrics, PeriodMetrics,
}
use iot_edge.Plugin.Energy.Period.{integrate, integrate-IsCovered}

abbrev zeros : Arithmetic
zeros = record {
  add = λ a b. a;
  sub = λ a b. a;
  mul = λ a b. a;
  div = λ a b. a;
  fmod = λ a b. a;
  of_int = λ z. 0;
  widen = λ a. a;
  narrow = λ a. a;
  trunc = λ a. a;
  to_int = λ a. pos 0;
  parse_float = λ t. none;
}

abbrev batch : ℕ → BatchDemand
batch t = record { batch_at = t; demand = record { kilowatts = 0; valid = true; errors = [] } }

abbrev later_batches : List BatchDemand
later_batches = batch 30 ∷ batch 90 ∷ batch 95 ∷ []

abbrev metrics_at : ℕ → BatchMetrics
metrics_at t = record {
  batch_at = t;
  electrical = record { kilowatts = 0; valid = true; errors = [] };
  thermal = record { kilowatts = 0; valid = false; errors = [] };
  tariff = record { rate_per_kwh = 0; valid = true; errors = [] };
  cop = record { value = 0; valid = false };
}

abbrev config : EnergyConfig
config = record {
  logger_id = 7;
  electrical_power_tags = record { tag_id = 1; unit = kilowatt } ∷ [];
  thermal_power_tags = [];
  max_gap_seconds = 1;
  tariff = record { mode = TariffMode.flat; rate_per_kwh = 0; tag_id = 0 };
}

abbrev period : PeriodMetrics
period = record {
  from = 10;
  to = 100;
  electrical = record {
    kilowatt_hours = 0;
    covered = 85;
    skipped = 5;
    segments = 3;
    skipped_segments = 0;
    issues = record { from = 95; to = 100; code = no_coverage; errors = [] } ∷ [];
  };
  thermal = record {
    kilowatt_hours = 0;
    covered = 0;
    skipped = 90;
    segments = 0;
    skipped_segments = 3;
    issues =
        record { from = 10; to = 30; code = invalid_value; errors = [] }
        ∷ record { from = 30; to = 90; code = invalid_value; errors = [] }
        ∷ record { from = 90; to = 95; code = invalid_value; errors = [] }
        ∷ record { from = 95; to = 100; code = no_coverage; errors = [] }
        ∷ [];
  };
  cost = record { value = 0; valid = true };
  cop = record { value = 0; valid = false };
}

abbrev four_metrics : List BatchMetrics
four_metrics = metrics_at 5 ∷ metrics_at 30 ∷ metrics_at 90 ∷ metrics_at 95 ∷ []

integrates : integrate zeros config four_metrics 10 100 ≡ ok period
unfolding integrate
integrates = refl

integrate-IsCovered_example : IsCovered 10 100 period.electrical × IsCovered 10 100 period.thermal
integrate-IsCovered_example =
    integrate-IsCovered zeros config four_metrics 10 100 period (omega arith) integrates

-- The gap from 30 to 90 is too long, and nothing covers the end of the range.
covers : integrate_demand zeros 25 10 100 (batch 5 ∷ later_batches) ≡ record {
  kilowatt_hours = 0;
  covered = 25;
  skipped = 65;
  segments = 2;
  skipped_segments = 1;
  issues =
      record { from = 30; to = 90; code = stale_gap; errors = [] }
      ∷ record { from = 95; to = 100; code = no_coverage; errors = [] }
      ∷ [];
}
unfolding integrate_demand
covers = refl
