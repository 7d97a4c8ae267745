-- ===== src/Bsi/Compare.antt =====
-- bsi/bsi.go, `CompareValue`.
pub mod Defs
pub mod Low
pub mod Scan
pub mod Column
pub mod Signed
pub mod Parallel
