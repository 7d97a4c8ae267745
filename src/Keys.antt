-- ===== src/Keys.antt =====
-- index.go and compare.go: event keys, their orders, and a heap of them.
pub mod Defs
pub mod Heap
pub mod Order
