-- ===== src/Filtering/Fuel.antt =====
-- filtering/filtering.go: every token takes input, and so the parser ends.
pub mod Progress
pub mod Measure
pub mod Atoms
pub mod Binds
pub mod Descent
