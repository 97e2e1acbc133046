-- ===== src/Rules.antt =====
-- The rule language of the enrichment engine, crates/enrichment-engine/src/rules: lexer, parser,
-- evaluation of conditions, and the evaluator of rules.
pub mod Token
pub mod Lexer
pub mod Expr
pub mod Parser
pub mod Facts
pub mod Eval
pub mod Evaluator
mod Tests
