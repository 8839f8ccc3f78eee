-- ===== src/Mpack.antt =====
-- src/mpack: the benchmarks of MPack.
pub mod Write
pub mod File
pub mod Node
pub mod Read
mod Tests
