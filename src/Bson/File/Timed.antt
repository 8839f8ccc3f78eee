-- ===== src/Bson/File/Timed.antt =====
-- The file that src/libbson/libbson-file.c writes, read by src/libbson/libbson-iter.c under `go`.
use schemaless_benchmarks.Base.{ℕ, ◌≡◌, true, Option, none, some, List, [], ◌∷◌, ◌++◌, length}
use schemaless_benchmarks.HashObject
use schemaless_benchmarks.Object.{Object}
use schemaless_benchmarks.Parser.{Members}
use schemaless_benchmarks.Benchmark.{Malloc}
use schemaless_benchmarks.Benchmark.Load.{benchmark_filename, format_bson}
use schemaless_benchmarks.Benchmark.Store.{Stdio}
use schemaless_benchmarks.Benchmark.Store.Laws.{IsRoomy}
use schemaless_benchmarks.Bson.Iter as Iter
use schemaless_benchmarks.Bson.Iter.{Leaf}
use schemaless_benchmarks.Bson.Append.{Bson}
use schemaless_benchmarks.Bson.Append.Laws.{Keeps, root_members}

-- The surroundings of the two tests: a document is given room on the disk, the library reads from its bytes the
-- elements of the object, if it holds them, and copies can be allocated.
pub record Reads {B : Type 0} (bson : Bson B) (keeps : Keeps bson) (stdio : Stdio) (malloc : Malloc)
    (parse : List ℕ → ℕ → Option (Members Leaf)) (object_size : ℕ) (o : Object) : Type 0 where
  pub room :
      (b : B)
      → IsRoomy stdio
          (benchmark_filename stdio.decimal 64 object_size format_bson none)
          (bson.data_of b)
  pub parsed :
      (b : B) (ms : Members Leaf)
      → root_members bson.index_name o ≡ some ms
      → keeps.Holds b ms
      → parse (bson.data_of b ++ 0 ∷ []) (length (bson.data_of b)) ≡ some ms
  pub given : (n : ℕ) → malloc n ≡ true
