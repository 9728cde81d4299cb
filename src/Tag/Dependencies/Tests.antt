-- ===== src/Tag/Dependencies/Tests.antt =====
-- Runs of the checks of backend/internal/tag/service.go and of the linear transform.
use iot_edge.Prelude.{ℕ, zero, suc, ◌≡◌, refl, some, List, [], ◌∷◌, ok, err, if◌then◌else◌, ltb}
use iot_edge.Tag.Dependencies.{
  circular_tag_dependency, calculated_dependency_missing, tag_dependency_too_deep, Lookup, found,
  not_found, Edge, validate_dependency_graph,
}

abbrev stored : ℕ → Lookup
stored id = if ltb id 200 then found else not_found

abbrev pair : ℕ → ℕ → Edge
pair a b = record { tag_id = a; depends_on = b }

abbrev two_edges : List Edge
two_edges = pair 2 3 ∷ pair 3 1 ∷ []

finds_cycle :
    validate_dependency_graph stored (some two_edges) 1 (2 ∷ []) ≡ err circular_tag_dependency
unfolding validate_dependency_graph
finds_cycle = refl

accepts : validate_dependency_graph stored (some two_edges) 5 (2 ∷ 3 ∷ []) ≡ ok tt
unfolding validate_dependency_graph
accepts = refl

finds_missing :
    validate_dependency_graph stored (some two_edges) 5 (2 ∷ 200 ∷ [])
    ≡ err calculated_dependency_missing
unfolding validate_dependency_graph
finds_missing = refl

-- The edges of a chain of tags from the given one.
abbrev chain_of : ℕ → ℕ → List Edge
chain_of zero from = []
chain_of (suc n) from = pair from (suc from) ∷ chain_of n (suc from)

-- The tag 0 heads a chain of 130 dependencies, which the depth refuses only where the chain's second tag
-- is visited before its middle.
refuses_long :
    validate_dependency_graph stored (some (chain_of 129 1)) 0 (1 ∷ 65 ∷ [])
    ≡ err tag_dependency_too_deep
unfolding validate_dependency_graph
refuses_long = refl

accepts_long : validate_dependency_graph stored (some (chain_of 129 1)) 0 (65 ∷ 1 ∷ []) ≡ ok tt
unfolding validate_dependency_graph
accepts_long = refl
