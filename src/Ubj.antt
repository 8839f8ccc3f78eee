-- ===== src/Ubj.antt =====
-- src/ubj: the benchmarks of ubj.
pub mod Read
pub mod Write
pub mod File
