-- ===== src/Tag/Expression.antt =====
-- backend/internal/tag/expression.go: the expression language of calculated tags.
pub mod Token
pub mod Lexer
pub mod Parser
pub mod Scan
pub mod Stream
pub mod Progress
pub mod Levels
pub mod Primary
pub mod Whole
pub mod Eval
pub mod Soundness
pub mod Meaning
pub mod Asked
mod Tests
