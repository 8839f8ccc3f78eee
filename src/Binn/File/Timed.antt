-- ===== src/Binn/File/Timed.antt =====
-- The file that src/binn/binn-file.c writes, read by src/binn/binn-load.c under `go`.
use schemaless_benchmarks.Base.{ℕ, ◌≡◌, true, none, some, List, [], ◌∷◌, ◌++◌}
use schemaless_benchmarks.HashObject
use schemaless_benchmarks.HashObject.Laws.{canonical}
use schemaless_benchmarks.Object.{Object}
use schemaless_benchmarks.Benchmark.{Malloc}
use schemaless_benchmarks.Benchmark.Load.{benchmark_filename, format_binn}
use schemaless_benchmarks.Benchmark.Store.{Stdio}
use schemaless_benchmarks.Benchmark.Store.Laws.{IsRoomy}
use schemaless_benchmarks.Binn.Write.{Binn}
use schemaless_benchmarks.Binn.Write.Library.{Keeps, Holds, IsContainer}
use schemaless_benchmarks.Binn.Load as Load
use schemaless_benchmarks.Binn.Load.{Value}
use schemaless_benchmarks.Binn.Load.Laws as Loaded

-- A value that was read stands for an object, up to the sign of unsigned numbers.
pub record StandsFor (t : Value) (o : Object) : Type 0 where
  pub root : Loaded.IsContainer t
  pub read : Object
  pub stands : Load.value t ≡ some read
  pub same : canonical read ≡ canonical o

-- The surroundings of the two tests for an object: a `binn` that holds it is given room on the disk, its bytes load
-- as a value that stands for the object, and copies can be allocated.
pub record Reads {B : Type 0} (binn : Binn B) (keeps : Keeps binn) (stdio : Stdio) (malloc : Malloc)
    (binn_load : List ℕ → Value) (object_size : ℕ) (o : Object) : Type 0 where
  pub room :
      (b : B)
      → Holds keeps b o
      → IsRoomy stdio
          (benchmark_filename stdio.decimal 64 object_size format_binn none)
          (binn.bytes b)
  pub loads : (b : B) → Holds keeps b o → StandsFor (binn_load (binn.bytes b ++ 0 ∷ [])) o
  pub given : (n : ℕ) → malloc n ≡ true
