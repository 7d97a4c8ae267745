-- ===== src/Index/Merge.antt =====
-- index.go: `mergeTwoIndices`, with `moveBitmap` and `mergeBSI`.
pub mod Defs
pub mod Rows
pub mod Move
pub mod Maps
pub mod Bsis
pub mod Carried
pub mod Kept
