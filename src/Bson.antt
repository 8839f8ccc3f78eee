-- ===== src/Bson.antt =====
-- src/libbson: the benchmarks of libbson.
pub mod Iter
pub mod Append
pub mod File
mod Tests
