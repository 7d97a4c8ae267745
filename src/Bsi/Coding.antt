-- ===== src/Bsi/Coding.antt =====
-- bsi/bsi.go: `MarshalBinary` and `UnmarshalBinary`.
pub mod Defs
pub mod Slices
pub mod RoundTrip
