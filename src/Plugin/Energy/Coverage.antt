-- ===== src/Plugin/Energy/Coverage.antt =====
-- The time that `integrateDemand` (backend/internal/plugin/energy/calculator.go) covers and reports.
use iot_edge.Prelude.{
  ℕ, ◌+◌, ◌-◌, ◌≤◌, ◌<◌, ◌≡◌, Bool, true, false, ◌||◌, not, List, [], ◌∷◌, ◌++◌, ltb, if◌then◌else◌,
  if-elim, arith, refl, ap, ◌∙◌,
}
use iot_edge.Value.Float.{Arithmetic, is_finite64}
use iot_edge.Plugin.Energy.{
  MetricErrorCode, MetricError, BatchDemand, SegmentIssue, EnergyMetric, two63, sub64, time_sub,
  later_time, earlier_time, segment_energy, skip, cover, settle, insert_issue, sort_issues, last_at,
  uncovered, append_boundary_coverage_issues, segment, segments_after, nothing_yet,
  integrate_demand, lt64, stale_gap, invalid_value,
}

-- The time that issues report.
abbrev pub total : List SegmentIssue → ℕ
total [] = 0
total (x ∷ xs) = (x.to - x.from) + total xs

total-append : (xs ys : List SegmentIssue) → total (xs ++ ys) ≡ total xs + total ys
total-append [] ys = omega arith
total-append (x ∷ xs) ys = let h = total-append xs ys in omega (arith, h)

total-insert_issue :
    (x : SegmentIssue) (ys : List SegmentIssue)
    → total (insert_issue x ys) ≡ (x.to - x.from) + total ys
unfolding insert_issue
total-insert_issue x [] = refl
total-insert_issue x (y ∷ ys) = let h = total-insert_issue x ys in ground (arith, h)

total-sort_issues : (xs : List SegmentIssue) → total (sort_issues xs) ≡ total xs
unfolding sort_issues
total-sort_issues [] = refl
total-sort_issues (x ∷ xs) =
    total-insert_issue x (sort_issues xs) ∙ ap (λ n. (x.to - x.from) + n) (total-sort_issues xs)

not-eq-true : (b : Bool) → not b ≡ true → b ≡ false
not-eq-true true h = cc
not-eq-true false h = refl

not-eq-false : (b : Bool) → not b ≡ false → b ≡ true
not-eq-false true h = refl
not-eq-false false h = cc

finite_sum : (a b : Bool) → (not a || not b) ≡ false → b ≡ true
finite_sum true true h = refl
finite_sum true false h = cc
finite_sum false b h = cc

-- Batches in the order of their times.
abbrev pub IsRising : BatchDemand → List BatchDemand → Type 0
IsRising left [] = Unit {0}
IsRising left (right ∷ metrics) = (left.batch_at < right.batch_at) × IsRising right metrics

-- The range is the time that is covered and the time of the issues, which is what is skipped.
abbrev pub IsCovered : (from to : ℕ) → EnergyMetric → Type 0
IsCovered from to r =
    (r.covered + total r.issues ≡ to - from)
    × (r.skipped ≡ total r.issues)
    × (is_finite64 r.kilowatt_hours ≡ true)

module _ (from to : ℕ) where
  -- How far into the range a time is.
  abbrev reach : ℕ → ℕ
  reach t = later_time from (earlier_time to t) - from

  reach-skipped :
      (left right : ℕ)
      → from < to
      → left < right
      → ltb (later_time from left) (earlier_time to right) ≡ false
      → reach left ≡ reach right
  reach-skipped left right range h none_left = ground arith

  reach-segment :
      (left right : ℕ)
      → from < to
      → ltb (later_time from left) (earlier_time to right) ≡ true
      → reach left + (earlier_time to right - later_time from left) ≡ reach right
  reach-segment left right range h = ground arith

  reach-bound : (t : ℕ) → from < to → reach t ≤ to - from
  reach-bound t range = ground arith

  -- What the loop has accounted for when it reaches a batch.
  abbrev Accounts : (first at : ℕ) → EnergyMetric → Type 0
  Accounts first at r =
      (r.covered + total r.issues + reach first ≡ reach at)
      × (r.skipped ≡ to - from)
      × (is_finite64 r.kilowatt_hours ≡ true)

  skip-Accounts :
      (first left right : ℕ) (r : EnergyMetric) (code : MetricErrorCode) (errors : List MetricError)
      → from < to
      → ltb (later_time from left) (earlier_time to right) ≡ true
      → Accounts first left r
      → Accounts first right (skip r (later_time from left) (earlier_time to right) code errors)
  skip-Accounts first left right r code errors range h (all, whole, finite) =
      let step = reach-segment left right range h in
      let more = total-append r.issues (
        record {
          from = later_time from left;
          to = earlier_time to right;
          code = code;
          errors = errors;
        }
        ∷ []) in
      (omega (arith, step, more, all), whole, finite)

  reach-uncovered_first :
      (t : ℕ) → from < to → total (uncovered (ltb from t) from (earlier_time to t)) ≡ reach t
  reach-uncovered_first t range = ground arith

  reach-uncovered_last :
      (t : ℕ)
      → from < to
      → reach t + total (uncovered (ltb t to) (later_time from t) to) ≡ to - from
  reach-uncovered_last t range = ground arith

  module _ (range : from < to) (bound : to - from < two63) where
    time_sub-segment :
        (left right : ℕ)
        → ltb (later_time from left) (earlier_time to right) ≡ true
        → time_sub (earlier_time to right) (later_time from left)
          ≡ earlier_time to right - later_time from left
    time_sub-segment left right h = ground arith

    time_sub-range : time_sub to from ≡ to - from
    time_sub-range = ground arith

    cover-Accounts :
        (first left right energy : ℕ) (r : EnergyMetric)
        → ltb (later_time from left) (earlier_time to right) ≡ true
        → is_finite64 energy ≡ true
        → Accounts first left r
        → Accounts first right
            (cover r energy (time_sub (earlier_time to right) (later_time from left)))
    cover-Accounts first left right energy r h finite (all, whole, _) =
        let step = reach-segment left right range h in
        let most = reach-bound right range in
        let same = time_sub-segment left right h in
        (omega (arith, step, most, same, all), whole, finite)

    module _ (arithmetic : Arithmetic) (max_gap : ℕ) where
      segment-Accounts :
          (first : ℕ) (left right : BatchDemand) (r : EnergyMetric)
          → left.batch_at < right.batch_at
          → Accounts first left.batch_at r
          → Accounts first right.batch_at (segment arithmetic max_gap from to left right r)
      unfolding segment
      segment-Accounts first left right r rising accounts =
          let segment_from = later_time from left.batch_at in
          let segment_to = earlier_time to right.batch_at in
          let energy = segment_energy arithmetic left right segment_from segment_to in
          let sum = arithmetic.add r.kilowatt_hours energy in
          let P = Accounts first right.batch_at in
          if-elim P (not (ltb segment_from segment_to))
            (λ h.
              let same =
                reach-skipped left.batch_at right.batch_at range rising
                  (not-eq-true (ltb segment_from segment_to) h) in
              (accounts.0 ∙ same, accounts.1, accounts.2))
            (λ h.
              let within = not-eq-false (ltb segment_from segment_to) h in
              let skipped = λ (code : MetricErrorCode) (errors : List MetricError).
                skip-Accounts first left.batch_at right.batch_at r code errors range within
                  accounts in
              if-elim P (lt64 max_gap (time_sub right.batch_at left.batch_at))
                (λ _. skipped stale_gap [])
                (λ _.
                  if-elim P (not left.demand.valid || not right.demand.valid)
                    (λ _. skipped invalid_value (left.demand.errors ++ right.demand.errors))
                    (λ _.
                      if-elim P (not (is_finite64 energy) || not (is_finite64 sum))
                        (λ _. skipped invalid_value [])
                        (λ finite.
                          cover-Accounts first left.batch_at right.batch_at sum r within
                            (finite_sum (is_finite64 energy) (is_finite64 sum) finite) accounts))))

      segments_after-Accounts :
          (first : ℕ) (left : BatchDemand) (metrics : List BatchDemand) (r : EnergyMetric)
          → IsRising left metrics
          → Accounts first left.batch_at r
          → Accounts first
              (last_at left.batch_at metrics)
              (segments_after arithmetic max_gap from to left metrics r)
      unfolding segments_after
      segments_after-Accounts first left [] r rising accounts = accounts
      segments_after-Accounts first left (right ∷ metrics) r (rising, later) accounts =
          segments_after-Accounts first right metrics
            (segment arithmetic max_gap from to left right r) later
            (segment-Accounts first left right r rising accounts)

      ends :
          (first last : ℕ) (r : EnergyMetric)
          → Accounts first last r
          → IsCovered from to (append_boundary_coverage_issues first last from to (settle r))
      unfolding append_boundary_coverage_issues
      ends first last r (all, whole, finite) =
          let before = uncovered (ltb from first) from (earlier_time to first) in
          let after = uncovered (ltb last to) (later_time from last) to in
          let sorted = total-sort_issues ((r.issues ++ before) ++ after) in
          let added = total-append (r.issues ++ before) after in
          let kept = total-append r.issues before in
          let at_first = reach-uncovered_first first range in
          let at_last = reach-uncovered_last last range in
          let sum = sorted ∙ added ∙ ap (λ n. n + total after) kept in
          (
            omega (arith, sum, at_first, at_last, all),
            settled r.covered r.skipped (total (sort_issues ((r.issues ++ before) ++ after))) whole
                (omega (arith, sum, at_first, at_last, all)),
            finite,
          )
        where
          settled :
              (covered skipped issues : ℕ)
              → skipped ≡ to - from
              → covered + issues ≡ to - from
              → (if not (ltb (sub64 skipped covered) two63) then 0 else sub64 skipped covered)
                ≡ issues
          settled covered skipped issues whole all = ground arith

      -- Over batches in the order of their times and a range of less than 2^63 ns, the integral is finite
      -- and accounts for the whole range: what is covered and the times of its issues add up to the range,
      -- and what it reports as skipped is the time of the issues.
      pub integrate_demand-IsCovered :
          (first : BatchDemand) (metrics : List BatchDemand)
          → IsRising first metrics
          → IsCovered from to (integrate_demand arithmetic max_gap from to (first ∷ metrics))
      unfolding integrate_demand
      integrate_demand-IsCovered first [] rising = (ground arith, ground arith, refl)
      integrate_demand-IsCovered left (right ∷ metrics) rising =
          ends left.batch_at (last_at right.batch_at metrics)
            (segments_after arithmetic max_gap from to left (right ∷ metrics)
              (nothing_yet from to []))
            (segments_after-Accounts left.batch_at left (right ∷ metrics) (nothing_yet from to [])
              rising (omega arith, time_sub-range, refl))
