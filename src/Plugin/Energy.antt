-- ===== src/Plugin/Energy.antt =====
-- backend/internal/plugin/energy/calculator.go: the energy of a period from the demand of its batches,
-- `integrateDemand`. A duration is the two's complement of its int64; messages are left out.
pub mod Coverage
pub mod Calculator
pub mod Period
mod Tests
use iot_edge.Prelude.{
  ℕ, zero, suc, ◌+◌, ◌-◌, ◌*◌, ◌/◌, ◌%◌, min, Bool, true, false, ◌&&◌, ◌||◌, not, List, [], ◌∷◌,
  ◌++◌, ltb, ◌==◌, if◌then◌else◌, pos,
}
use iot_edge.Value.{to_signed}
use iot_edge.Value.Float.{Arithmetic, is_finite64}

pub data MetricErrorCode : Type 0 where
  missing_sample source_bad invalid_value stale_gap no_coverage : MetricErrorCode

pub record MetricError : Type 0 where
  pub code : MetricErrorCode
  pub tag_id : ℕ
  pub at : ℕ

pub record DemandMetric : Type 0 where
  pub kilowatts : ℕ
  pub valid : Bool
  pub errors : List MetricError

-- `BatchMetrics`: its time and the demand that is selected.
pub record BatchDemand : Type 0 where
  pub batch_at : ℕ
  pub demand : DemandMetric

pub record SegmentIssue : Type 0 where
  pub from : ℕ
  pub to : ℕ
  pub code : MetricErrorCode
  pub errors : List MetricError

pub record EnergyMetric : Type 0 where
  pub kilowatt_hours : ℕ
  pub covered : ℕ
  pub skipped : ℕ
  pub segments : ℕ
  pub skipped_segments : ℕ
  pub issues : List SegmentIssue

abbrev pub two63 : ℕ
two63 = 9223372036854775808

abbrev pub two64 : ℕ
two64 = 18446744073709551616

abbrev pub add64 : ℕ → ℕ → ℕ
add64 a b = (a + b) % two64

abbrev pub sub64 : ℕ → ℕ → ℕ
sub64 a b = (a + two64 - b) % two64

abbrev pub is_negative : ℕ → Bool
is_negative a = not (ltb a two63)

abbrev pub lt64 : ℕ → ℕ → Bool
lt64 a b = ltb (add64 a two63) (add64 b two63)

-- `a.Sub(b)`, which saturates.
abbrev pub time_sub : ℕ → ℕ → ℕ
time_sub a b = if ltb a b then two64 - min (b - a) two63 else min (a - b) (two63 - 1)

abbrev pub later_time : ℕ → ℕ → ℕ
later_time left right = if ltb right left then left else right

abbrev pub earlier_time : ℕ → ℕ → ℕ
earlier_time left right = if ltb left right then left else right

module _ (arithmetic : Arithmetic) where
  -- `float64(d)`
  float_of : ℕ → ℕ
  unfolding to_signed
  float_of d = arithmetic.of_int (to_signed two63 d)

  -- `d.Hours()`, of a duration that is not negative.
  hours : ℕ → ℕ
  hours d = arithmetic.add (arithmetic.of_int (pos (d / 3600000000000))) (
      arithmetic.div (arithmetic.of_int (pos (d % 3600000000000)))
        (arithmetic.of_int (pos 3600000000000)))

  -- The power at a fraction of the way from the left batch to the right one.
  power_at : (left right fraction : ℕ) → ℕ
  power_at left right fraction =
      arithmetic.add left (arithmetic.mul (arithmetic.sub right left) fraction)

  -- The energy of a segment: the mean of the powers at its ends by its hours.
  unfoldable pub segment_energy : (left right : BatchDemand) → (segment_from segment_to : ℕ) → ℕ
  unfolding float_of hours power_at
  segment_energy left right segment_from segment_to =
      let full = float_of (time_sub right.batch_at left.batch_at) in
      let power = λ (t : ℕ).
        power_at left.demand.kilowatts right.demand.kilowatts
          (arithmetic.div (float_of (time_sub t left.batch_at)) full) in
      arithmetic.mul
        (arithmetic.div (arithmetic.add (power segment_from) (power segment_to))
          4611686018427387904)
        (hours (time_sub segment_to segment_from))

abbrev pub skip : EnergyMetric → (from to : ℕ) → MetricErrorCode → List MetricError → EnergyMetric
skip result from to code errors = record {
  kilowatt_hours = result.kilowatt_hours;
  covered = result.covered;
  skipped = result.skipped;
  segments = result.segments;
  skipped_segments = suc result.skipped_segments;
  issues = result.issues ++ record { from = from; to = to; code = code; errors = errors } ∷ [];
}

abbrev pub cover : EnergyMetric → (energy duration : ℕ) → EnergyMetric
cover result energy duration = record {
  kilowatt_hours = energy;
  covered = add64 result.covered duration;
  skipped = result.skipped;
  segments = suc result.segments;
  skipped_segments = result.skipped_segments;
  issues = result.issues;
}

abbrev pub with_issues : EnergyMetric → List SegmentIssue → EnergyMetric
with_issues result issues = record {
  kilowatt_hours = result.kilowatt_hours;
  covered = result.covered;
  skipped = result.skipped;
  segments = result.segments;
  skipped_segments = result.skipped_segments;
  issues = issues;
}

-- `result.Skipped -= result.Covered`, at least 0.
abbrev pub settle : EnergyMetric → EnergyMetric
settle result =
    let left = sub64 result.skipped result.covered in
    record {
      kilowatt_hours = result.kilowatt_hours;
      covered = result.covered;
      skipped = if is_negative left then 0 else left;
      segments = result.segments;
      skipped_segments = result.skipped_segments;
      issues = result.issues;
    }

abbrev issue_before : SegmentIssue → SegmentIssue → Bool
issue_before a b = if a.from == b.from then ltb a.to b.to else ltb a.from b.from

-- `sort.SliceStable`
unfoldable pub insert_issue : SegmentIssue → List SegmentIssue → List SegmentIssue
insert_issue x [] = x ∷ []
insert_issue x (y ∷ ys) =
    let rest = insert_issue x ys in if issue_before y x then y ∷ rest else x ∷ y ∷ ys

unfoldable pub sort_issues : List SegmentIssue → List SegmentIssue
unfolding insert_issue
sort_issues [] = []
sort_issues (x ∷ xs) = insert_issue x (sort_issues xs)

abbrev pub last_at : ℕ → List BatchDemand → ℕ
last_at first [] = first
last_at first (m ∷ metrics) = last_at m.batch_at metrics

abbrev pub uncovered : Bool → (from to : ℕ) → List SegmentIssue
uncovered missing from to =
    if missing then record { from = from; to = to; code = no_coverage; errors = [] } ∷ [] else []

unfoldable pub append_boundary_coverage_issues :
    (first last from to : ℕ) → EnergyMetric → EnergyMetric
unfolding sort_issues
append_boundary_coverage_issues first last from to result = with_issues result (
    sort_issues (
      (result.issues ++ uncovered (ltb from first) from (earlier_time to first))
      ++ uncovered (ltb last to) (later_time from last) to))

abbrev pub nothing_yet : (from to : ℕ) → List SegmentIssue → EnergyMetric
nothing_yet from to issues = record {
  kilowatt_hours = 0;
  covered = 0;
  skipped = time_sub to from;
  segments = 0;
  skipped_segments = 0;
  issues = issues;
}

module _ (arithmetic : Arithmetic) (max_gap from to : ℕ) where
  -- One turn of the loop.
  unfoldable pub segment : (left right : BatchDemand) → EnergyMetric → EnergyMetric
  unfolding segment_energy is_finite64
  segment left right result =
      let segment_from = later_time from left.batch_at in
      let segment_to = earlier_time to right.batch_at in
      let energy = segment_energy arithmetic left right segment_from segment_to in
      let sum = arithmetic.add result.kilowatt_hours energy in
      if not (ltb segment_from segment_to)
      then result
      else if lt64 max_gap (time_sub right.batch_at left.batch_at)
      then skip result segment_from segment_to stale_gap []
      else if not left.demand.valid || not right.demand.valid
      then skip result segment_from segment_to invalid_value
          (left.demand.errors ++ right.demand.errors)
      else if not (is_finite64 energy) || not (is_finite64 sum)
      then skip result segment_from segment_to invalid_value []
      else cover result sum (time_sub segment_to segment_from)

  unfoldable pub segments_after : BatchDemand → List BatchDemand → EnergyMetric → EnergyMetric
  unfolding segment
  segments_after left [] result = result
  segments_after left (right ∷ metrics) result =
      segments_after right metrics (segment left right result)

  unfoldable pub integrate_demand : List BatchDemand → EnergyMetric
  unfolding segments_after append_boundary_coverage_issues
  integrate_demand [] = nothing_yet from to (uncovered true from to)
  integrate_demand (left ∷ []) = nothing_yet from to (uncovered true from to)
  integrate_demand (left ∷ right ∷ metrics) =
      append_boundary_coverage_issues left.batch_at (last_at right.batch_at metrics) from to
        (settle (segments_after left (right ∷ metrics) (nothing_yet from to [])))
