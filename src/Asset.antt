-- ===== src/Asset.antt =====
-- backend/internal/asset: the placement of assets in a hierarchy (hierarchy.go, model.go), what their
-- measurements mean (semantic.go) and which of them make a total (aggregation.go).
pub mod Hierarchy
pub mod Semantic
pub mod Rollup
mod Tests
