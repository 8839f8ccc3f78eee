-- ===== src/Ubj/Write/Samples.antt =====
-- A library that writes the numbers of types, and takes all numbers for small ones.
use schemaless_benchmarks.Base.{ℤ}
use schemaless_benchmarks.Ubj.Write.{UbjType, ubj_int8}

abbrev pub min_type : ℤ → UbjType
min_type i = ubj_int8
