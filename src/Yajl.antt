-- ===== src/Yajl.antt =====
-- src/yajl: the benchmarks of YAJL.
pub mod Tree
mod Tests
pub mod Gen
pub mod Parse
