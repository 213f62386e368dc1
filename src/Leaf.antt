-- ===== src/Leaf.antt =====
-- The expressions of the templates: crates/kernleaf/src/expr.rs.
pub mod Value
pub mod Computed
pub mod Utilities
pub mod Expr
pub mod Lexer
pub mod Parser
pub mod Printer
pub mod Eval
mod Tests
