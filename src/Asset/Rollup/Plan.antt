-- ===== src/Asset/Rollup/Plan.antt =====
-- backend/internal/asset/aggregation.go: `BuildRollupPlan`, from the checks on.
pub mod Marks
pub mod Total
use iot_edge.Prelude.{
  ℕ, ◌+◌, Bool, true, false, ◌&&◌, ◌||◌, not, Option, none, some, List, [], ◌∷◌, ◌==◌,
  if◌then◌else◌, Result, ok, err, ◌>>=◌, ◌>>◌, fail_if, find, insert,
}
use iot_edge.Value.Text.{Text, text_eq, text_lt}
use iot_edge.Asset.Rollup.{
  MeasurementBinding, RollupCandidate, RollupPlan, RollupError, invalid_aggregation,
  conflicting_meters, virtual_meter_cycle, out_of_fuel, Formats, aggregation_group, is_include,
  is_main, is_virtual, check_candidates, by_id, Visit, virtual_dependency_cycle,
}

-- `included[id]`
abbrev pub is_included : ℕ → List (ℕ × Bool) → Bool
is_included id marks = elim (find id marks) [ none ↦ false | some b ↦ b ]

unfoldable pub policy_marks : List RollupCandidate → List (ℕ × Bool)
policy_marks [] = []
policy_marks (c ∷ candidates) =
    insert c.binding.id (is_include c.binding.rollup_policy) (policy_marks candidates)

-- `mainByGroup[group]`
abbrev pub main_of : Text → List (Text × ℕ) → Option ℕ
main_of group [] = none
main_of group ((g, id) ∷ mains) = if text_eq g group then some id else main_of group mains

abbrev pub has_main : Option ℕ → Bool
has_main none = false
has_main (some id) = true

-- `exists && id != mainID`
abbrev pub loses : ℕ → Option ℕ → Bool
loses id none = false
loses id (some main) = not (main == id)

-- The order of each loop over the candidates.
pub record Orders : Type 0 where
  pub visits : List RollupCandidate
  pub mains : List RollupCandidate
  pub others : List RollupCandidate
  pub virtuals : List RollupCandidate
  pub listing : List RollupCandidate

module _ (formats : Formats) where
  abbrev pub group_of : RollupCandidate → Text
  group_of c = aggregation_group formats c.binding

  -- The loop that fills `mainByGroup`.
  unfoldable pub collect_mains :
      List (ℕ × Bool)
      → List (Text × ℕ)
      → List RollupCandidate
      → Result RollupError (List (Text × ℕ))
  unfolding aggregation_group
  collect_mains marks mains [] = ok mains
  collect_mains marks mains (c ∷ candidates) =
      if not (is_included c.binding.id marks) || not (is_main c.binding.meter_role)
      then collect_mains marks mains candidates
      else (fail_if (has_main (main_of (group_of c) mains)) conflicting_meters
          >> collect_mains marks ((group_of c, c.binding.id) ∷ mains) candidates)

  -- The loop that takes out what a main meter already measures.
  unfoldable pub exclude_others :
      List (Text × ℕ) → List RollupCandidate → List (ℕ × Bool) → List (ℕ × Bool)
  unfolding aggregation_group
  exclude_others mains [] marks = marks
  exclude_others mains (c ∷ candidates) marks = exclude_others mains candidates (
      if loses c.binding.id (main_of (group_of c) mains)
      then insert c.binding.id false marks
      else marks)

  module _ (candidates : List RollupCandidate) where
    -- The loop over the inputs of a virtual meter.
    unfoldable pub replace_inputs :
        RollupCandidate → List ℕ → List (ℕ × Bool) → Result RollupError (List (ℕ × Bool))
    unfolding aggregation_group
    replace_inputs c [] marks = ok marks
    replace_inputs c (id ∷ ids) marks = elim (by_id id candidates) [
      | none ↦ err invalid_aggregation
      | some input ↦
          fail_if (not (text_eq (group_of input) (group_of c))) invalid_aggregation
          >> replace_inputs c ids (insert id false marks)
    ]

    -- The loop over virtual meters.
    unfoldable pub replace_virtuals :
        List RollupCandidate → List (ℕ × Bool) → Result RollupError (List (ℕ × Bool))
    unfolding replace_inputs
    replace_virtuals [] marks = ok marks
    replace_virtuals (c ∷ order) marks =
        (if is_included c.binding.id marks && is_virtual c.binding.meter_role
          then replace_inputs c c.binding.virtual_inputs marks
          else ok marks)
        >>= λ next. replace_virtuals order next

  -- `sortUUIDs`
  abbrev pub insert_uuid : ℕ → List ℕ → List ℕ
  insert_uuid id [] = id ∷ []
  insert_uuid id (x ∷ ids) =
      let rest = insert_uuid id ids in
      if text_lt (formats.uuid_text x) (formats.uuid_text id) then x ∷ rest else id ∷ x ∷ ids

  abbrev pub sort_uuids : List ℕ → List ℕ
  sort_uuids [] = []
  sort_uuids (id ∷ ids) = insert_uuid id (sort_uuids ids)

  -- The last loop: the ids with a mark, or without.
  abbrev pub chosen : Bool → List (ℕ × Bool) → List RollupCandidate → List ℕ
  chosen wanted marks [] = []
  chosen wanted marks (c ∷ candidates) =
      let rest = chosen wanted marks candidates in
      if (if wanted then is_included c.binding.id marks else not (is_included c.binding.id marks))
      then c.binding.id ∷ rest
      else rest

  abbrev pub as_plan : Orders → List (ℕ × Bool) → RollupPlan
  as_plan orders marks = record {
    included = sort_uuids (chosen true marks orders.listing);
    excluded = sort_uuids (chosen false marks orders.listing);
  }

  abbrev pub no_cycle : Visit → Result RollupError (Unit {0})
  no_cycle Visit.exhausted = err out_of_fuel
  no_cycle Visit.cycle = err virtual_meter_cycle
  no_cycle (Visit.settled done) = ok tt

  unfoldable pub build_rollup_plan :
      ℕ → List RollupCandidate → Orders → Result RollupError RollupPlan
  unfolding check_candidates virtual_dependency_cycle policy_marks collect_mains exclude_others
      replace_virtuals
  build_rollup_plan target candidates orders =
      fail_if (target == 0) invalid_aggregation
      >> check_candidates formats target [] [] candidates
      >> no_cycle (virtual_dependency_cycle candidates orders.visits)
      >> (collect_mains (policy_marks candidates) [] orders.mains >>= λ mains.
          replace_virtuals candidates orders.virtuals
            (exclude_others mains orders.others (policy_marks candidates))
          >>= λ marks. ok (as_plan orders marks))
