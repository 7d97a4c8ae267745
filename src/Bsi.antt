-- ===== src/Bsi.antt =====
-- bsi/bsi.go, the bit-sliced index. `Defs` has its state and the calls on single values.
pub mod Defs
pub mod Value
pub mod Grow
pub mod Plain
pub mod SetGet
pub mod Executor
pub mod Compare
pub mod Ops
pub mod Adding
pub mod Sets
pub mod Uniting
pub mod Coding
pub mod BatchEqual
pub mod Transpose
