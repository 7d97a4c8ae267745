-- ===== src/Iterators/Table.antt =====
-- iterator_memtable.go: the iterator over the items of a memtable that match a filter.
pub mod Defs
pub mod Listing
