-- ===== src/Examples.antt =====
-- The theorems at concrete inputs: small indexes over lists of bits, a few keys, events and workers.
mod Slices
mod Workers
mod Merges
mod Iterators
mod Coding
mod Orders
mod Filters
mod Promises
