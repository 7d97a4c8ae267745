-- ===== src/Index.antt =====
-- index.go, the index of events.
pub mod Defs
pub mod Steps
pub mod Agree
pub mod Times
pub mod Rows
pub mod Filled
pub mod Returns
pub mod Query
pub mod Merge
pub mod Remote
pub mod Text
pub mod Bounded
