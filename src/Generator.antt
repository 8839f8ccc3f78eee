-- ===== src/Generator.antt =====
-- src/common/generator.c: the random structured data generator.
mod Tests
pub mod Outcome
pub mod Text
pub mod Kind
pub mod Init
pub mod Pool
pub mod Teardown
