-- ===== src/Jansson.antt =====
-- src/jansson: the benchmarks of Jansson.
pub mod Load
pub mod Dump
mod Tests
