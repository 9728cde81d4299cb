-- ===== src/Plugin.antt =====
-- backend/internal/plugin: what the plugins compute.
pub mod Energy
