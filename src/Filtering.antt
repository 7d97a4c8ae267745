-- ===== src/Filtering.antt =====
-- filtering/filtering.go: filters, their lexer and their parser.
pub mod Syntax
pub mod Whole
pub mod Lexer
pub mod Result
pub mod Atoms
pub mod Parser
pub mod Fuel
pub mod Gives
pub mod Built
mod Runs
