-- ===== src/Cmp.antt =====
-- src/cmp: the benchmarks of cmp.
pub mod Write
pub mod Read
