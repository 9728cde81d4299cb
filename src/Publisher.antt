-- ===== src/Publisher.antt =====
-- backend/internal/publisher: the triggers of publishers (trigger.go).
pub mod Trigger
mod Tests
