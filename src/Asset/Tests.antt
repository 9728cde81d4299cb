-- ===== src/Asset/Tests.antt =====
-- Ancestries of assets, and the theorem at one.
use iot_edge.Prelude.{ℕ, ◌≡◌, ◌≢◌, ◌↔◌, ◌≤◌, refl, [], ◌∷◌, All, length, ok, err}
use iot_edge.Asset.Hierarchy.{
  hierarchy_cycle, validate_ancestry, max_hierarchy_depth, IsDistinct, validate_ancestry-IsDistinct,
}

cycle : validate_ancestry 5 (3 ∷ 5 ∷ []) ≡ err hierarchy_cycle
unfolding validate_ancestry
cycle = refl

validate_ancestry-IsDistinct_example : (validate_ancestry 5 (3 ∷ 2 ∷ []) ≡ ok tt) ↔ (
    All (λ (x : ℕ). x ≢ 0) (5 ∷ 3 ∷ 2 ∷ [])
    × IsDistinct (5 ∷ 3 ∷ 2 ∷ [])
    × (length {A = ℕ} (5 ∷ 3 ∷ 2 ∷ []) ≤ max_hierarchy_depth))
validate_ancestry-IsDistinct_example = validate_ancestry-IsDistinct 5 (3 ∷ 2 ∷ [])
