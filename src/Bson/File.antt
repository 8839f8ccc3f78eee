-- ===== src/Bson/File.antt =====
-- src/libbson/libbson-file.c: `setup_test`, which writes the data file. The text of the functions that append is that
-- of src/libbson/libbson-append.c.
pub mod Timed
mod Tests
use schemaless_benchmarks.Base.{ℕ, Bool, true, false, Option, none, some, List, if◌then◌else◌, ℤ}
use schemaless_benchmarks.Object.{Object, Elements, Entries}
use schemaless_benchmarks.Writer.{Writing}
use schemaless_benchmarks.Benchmark.Load.{benchmark_filename, format_bson}
use schemaless_benchmarks.Benchmark.Store.{Disk, Stdio, write_open}
use schemaless_benchmarks.Bson.Append.{Bson}
use schemaless_benchmarks.Bson.Append as Append

module _ {B : Type 0} (bson : Bson B) where
  abbrev pub append_int : List ℕ → ℤ → B → B
  append_int = Append.append_int bson

  abbrev pub append_value : List ℕ → Object → Writing B
  append_value = Append.append_value bson

  abbrev pub append_document : Entries → Writing B
  append_document = Append.append_document bson

  abbrev pub append_array : ℕ → Elements → Writing B
  append_array = Append.append_array bson

  abbrev pub append_root : Object → Option (Bool × B)
  append_root = Append.append_root bson

  -- `object` is what `benchmark_object_create(object_size)` gives. The results of the functions that append are
  -- thrown away, and nothing closes the file. `none` is a root that has no children, or a write to a null pointer
  -- where the file could not be opened.
  unfoldable pub setup_test : Stdio → Object → ℕ → Disk → Option (Bool × Disk)
  setup_test stdio object object_size disk = elim (append_root object) [
    | none ↦ none
    | some (ignored, bson') ↦
        elim (write_open stdio (benchmark_filename stdio.decimal 64 object_size format_bson none)
          (bson.data_of bson') disk) [ none ↦ none | some written ↦ some (true, written) ]
  ]
