-- ===== src/Msgpack.antt =====
-- src/msgpack: the benchmarks of msgpack-c.
pub mod Unpack
mod Tests
pub mod Pack
