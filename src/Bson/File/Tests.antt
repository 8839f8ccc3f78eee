-- ===== src/Bson/File/Tests.antt =====
-- A file with a map in an array, written and read.
use schemaless_benchmarks.Base.{ℕ, true, Option, some, List}
use schemaless_benchmarks.HashObject
use schemaless_benchmarks.Parser.{Members}
use schemaless_benchmarks.Benchmark.{Malloc}
use schemaless_benchmarks.Bson.Iter as Iter
use schemaless_benchmarks.Bson.Iter.{Leaf}
use schemaless_benchmarks.Bson.Append.Laws.{indexed}
use schemaless_benchmarks.Bson.Append.Samples.{toy}
use schemaless_benchmarks.Object.Samples.{children}

abbrev parse : List ℕ → ℕ → Option (Members Leaf)
parse bytes size = some (indexed toy.index_name 0 children)

abbrev given : Malloc
given n = true
