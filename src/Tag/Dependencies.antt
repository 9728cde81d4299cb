-- ===== src/Tag/Dependencies.antt =====
-- backend/internal/tag/service.go: `validateDependencyGraph` and `graphCycleState`, and the linear
-- transform of backend/internal/tag/transform.go. What the repository answers are arguments.
pub mod Verdict
pub mod Report
pub mod Transform
mod Tests
use iot_edge.Prelude.{
  ℕ, zero, suc, ◌+◌, Bool, true, false, ◌||◌, not, Option, none, some, List, [], ◌∷◌, ◌++◌, ◌==◌,
  if◌then◌else◌, Result, ok, err, ◌>>=◌, ◌>>◌, fail_if, find, insert,
}
use iot_edge.Datalogger.Batch.{member}

pub data DependencyError : Type 0 where
  circular_tag_dependency calculated_dependency_missing tag_dependency_too_deep repository_failed :
      DependencyError

-- What `repository.Find` answers for a tag.
pub data Lookup : Type 0 where
  found not_found failed : Lookup

-- `Dependency`: the tag and the one it depends on.
pub record Edge : Type 0 where
  pub tag_id : ℕ
  pub depends_on : ℕ

abbrev pub max_tag_dependency_depth : ℕ
max_tag_dependency_depth = 128

-- `graph[id]`
abbrev pub edges_of : ℕ → List (ℕ × List ℕ) → List ℕ
edges_of id graph = elim (find id graph) [ none ↦ [] | some ids ↦ ids ]

-- The loop over the stored edges, which leaves out those of the tag itself.
unfoldable pub stored_graph : ℕ → List Edge → List (ℕ × List ℕ) → List (ℕ × List ℕ)
stored_graph tag [] graph = graph
stored_graph tag (edge ∷ edges) graph = stored_graph tag edges (
    if edge.tag_id == tag
    then graph
    else insert edge.tag_id (edges_of edge.tag_id graph ++ edge.depends_on ∷ []) graph)

unfoldable pub graph_with : ℕ → List ℕ → List Edge → List (ℕ × List ℕ)
unfolding stored_graph
graph_with tag dependencies edges = insert tag dependencies (stored_graph tag edges [])

-- What a visit finds: a cycle, a chain that is too deep, or neither and then the ids in state 2.
pub data Outcome : Type 0 where
  circular too_deep : Outcome
  clear : (done : List ℕ) → Outcome

abbrev pub then_check : Outcome → (List ℕ → Outcome) → Outcome
then_check (clear done) f = f done
then_check circular f = circular
then_check too_deep f = too_deep

-- The loop over dependencies.
abbrev pub check_all : (List ℕ → ℕ → Outcome) → List ℕ → List ℕ → Outcome
check_all check done [] = clear done
check_all check done (id ∷ ids) = then_check (check done id) (λ later. check_all check later ids)

-- `graphCycleState`; `left` is how many more levels the depth allows, and the ids in state 1 are those
-- of the calls that are under way, the path.
unfoldable pub graph_cycle_state :
    (left : ℕ) → List (ℕ × List ℕ) → (path done : List ℕ) → ℕ → Outcome
graph_cycle_state zero graph path done id =
    if member id path then circular else if member id done then clear done else too_deep
graph_cycle_state (suc left) graph path done id =
    if member id path
    then circular
    else if member id done
    then clear done
    else then_check (check_all (graph_cycle_state left graph (id ∷ path)) done (edges_of id graph))
        (λ later. clear (id ∷ later))

abbrev pub found_error : Lookup → Result DependencyError (Unit {0})
found_error found = ok tt
found_error not_found = err calculated_dependency_missing
found_error failed = err repository_failed

-- The loop over the new dependencies.
unfoldable pub check_dependencies : ℕ → (ℕ → Lookup) → List ℕ → Result DependencyError (Unit {0})
check_dependencies tag lookup [] = ok tt
check_dependencies tag lookup (id ∷ ids) =
    fail_if (id == tag) circular_tag_dependency
    >> found_error (lookup id)
    >> check_dependencies tag lookup ids

abbrev pub graph_error : Outcome → Result DependencyError (Unit {0})
graph_error too_deep = err tag_dependency_too_deep
graph_error circular = err circular_tag_dependency
graph_error (clear done) = ok tt

abbrev pub or_failed : Option (List Edge) → Result DependencyError (List Edge)
or_failed none = err repository_failed
or_failed (some edges) = ok edges

-- The start: depth 0, nothing visited.
unfoldable pub start_check : List (ℕ × List ℕ) → ℕ → Outcome
unfolding graph_cycle_state
start_check graph tag = graph_cycle_state (max_tag_dependency_depth + 1) graph [] [] tag

unfoldable pub validate_dependency_graph :
    (ℕ → Lookup) → Option (List Edge) → ℕ → List ℕ → Result DependencyError (Unit {0})
unfolding check_dependencies graph_with start_check
validate_dependency_graph lookup listed tag [] = ok tt
validate_dependency_graph lookup listed tag (id ∷ ids) =
    check_dependencies tag lookup (id ∷ ids)
    >> (or_failed listed >>= λ edges.
        graph_error (start_check (graph_with tag (id ∷ ids) edges) tag))
