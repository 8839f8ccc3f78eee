-- ===== src/Binn.antt =====
-- src/binn: the benchmarks of Binn.
pub mod Samples
pub mod Load
pub mod Write
pub mod File
