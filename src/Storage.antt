-- ===== src/Storage.antt =====
-- storage.go: the tables, the pending indexes and the levels, and the workers that move events
-- between them.
pub mod Parts
pub mod SkipLists
pub mod Levels
pub mod Defs
pub mod Steps
pub mod Coherent
pub mod Visible
pub mod Readers
pub mod Closing
pub mod Pages
pub mod Tokens
pub mod Tables
pub mod Actual
pub mod Promises
