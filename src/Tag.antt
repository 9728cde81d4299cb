-- ===== src/Tag.antt =====
-- Tags (backend/internal/tag): the binary converter, the reading decoder, the expression language,
-- the store of latest values, the graph of dependencies and the samples of readings.
pub mod Converter
pub mod Decoder
pub mod Expression
pub mod Coerce
pub mod Store
pub mod Dependencies
pub mod Reading
