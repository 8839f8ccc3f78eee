-- ===== src/Json.antt =====
-- src/udp-json: the benchmarks of json-parser and json-builder.
pub mod Parser
pub mod Builder
mod Tests
