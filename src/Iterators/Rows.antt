-- ===== src/Iterators/Rows.antt =====
-- iterator_index.go: the iterator over the rows of an index that a query gives.
pub mod Defs
pub mod Keys
pub mod Listing
