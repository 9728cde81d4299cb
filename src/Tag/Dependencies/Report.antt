-- ===== src/Tag/Dependencies/Report.antt =====
-- What `validateDependencyGraph` (backend/internal/tag/service.go) answers.
use iot_edge.Prelude.{
  ℕ, suc, ◌≡◌, ◌⊎◌, true, false, Option, none, some, List, Result, ok, err, All, Any,
}
use iot_edge.Datalogger.Batch.{member}
use iot_edge.Tag.Dependencies.{
  DependencyError, circular_tag_dependency, calculated_dependency_missing, tag_dependency_too_deep,
  repository_failed, Lookup, found, not_found, failed, Edge, max_tag_dependency_depth, graph_with,
}
use iot_edge.Tag.Dependencies.Verdict.{Chain}

module _ (graph : List (ℕ × List ℕ)) where
  -- A tag that depends on itself, at the end of a chain of dependencies from a tag.
  abbrev pub Cycle : ℕ → Type 0
  Cycle tag = (id n length : ℕ) × Chain graph n tag id × Chain graph (suc length) id id

  -- A chain from a tag of more dependencies than the maximum.
  abbrev pub TooLong : ℕ → Type 0
  TooLong tag = (id : ℕ) × Chain graph (suc max_tag_dependency_depth) tag id

module _ (lookup : ℕ → Lookup) (tag : ℕ) where
  -- What the loop over the new dependencies says.
  abbrev pub Checked : List ℕ → Result DependencyError (Unit {0}) → Type 0
  Checked ids (ok done) = All (λ id. lookup id ≡ found) ids × (member tag ids ≡ false)
  Checked ids (err circular_tag_dependency) = member tag ids ≡ true
  Checked ids (err calculated_dependency_missing) = Any (λ id. lookup id ≡ not_found) ids
  Checked ids (err tag_dependency_too_deep) = ⊥
  Checked ids (err repository_failed) = Any (λ id. lookup id ≡ failed) ids

  module _ (listed : Option (List Edge)) where
    -- What an answer says: the tag's dependencies are stored and it reaches no cycle, or why not.
    abbrev pub IsReport : List ℕ → Result DependencyError (Unit {0}) → Type 0
    IsReport ids (ok done) =
        All (λ id. lookup id ≡ found) ids
        × (member tag ids ≡ false)
        × (edges : List Edge) × (listed ≡ some edges)
        × (¬ (Cycle (graph_with tag ids edges) tag))
    IsReport ids (err circular_tag_dependency) =
        (member tag ids ≡ true)
        ⊎ ((edges : List Edge) × (listed ≡ some edges) × Cycle (graph_with tag ids edges) tag)
    IsReport ids (err calculated_dependency_missing) = Any (λ id. lookup id ≡ not_found) ids
    IsReport ids (err tag_dependency_too_deep) =
        (edges : List Edge) × (listed ≡ some edges) × TooLong (graph_with tag ids edges) tag
    IsReport ids (err repository_failed) = Any (λ id. lookup id ≡ failed) ids ⊎ (listed ≡ none)
