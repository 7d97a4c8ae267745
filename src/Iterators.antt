-- ===== src/Iterators.antt =====
-- iterator.go, iterator_merge.go, iterator_index.go and iterator_memtable.go.
pub mod Merge
pub mod MergeOrder
pub mod Rows
pub mod Table
pub mod Stale
