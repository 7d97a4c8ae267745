-- ===== src/Memtable.antt =====
-- memtable.go and match_memtable_item.go.
pub mod Defs
pub mod Match
