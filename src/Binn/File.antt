-- ===== src/Binn/File.antt =====
-- src/binn/binn-file.c: `setup_test`, which writes the data file. The text of its `write_list` and `write_object` is
-- that of src/binn/binn-write.c.
pub mod Timed
mod Tests
use schemaless_benchmarks.Base.{ℕ, Bool, true, false, Option, none, some, if◌then◌else◌}
use schemaless_benchmarks.Object.{Object, Elements, Entries}
use schemaless_benchmarks.Writer.{Writing}
use schemaless_benchmarks.Benchmark.Load.{benchmark_filename, format_binn}
use schemaless_benchmarks.Benchmark.Store.{Disk, Stdio, write_open, close_file}
use schemaless_benchmarks.Binn.Write.{Binn}
use schemaless_benchmarks.Binn.Write as Write

module _ {B : Type 0} (binn : Binn B) where
  abbrev pub write_list : Elements → Writing B
  write_list = Write.write_list binn

  abbrev pub write_object : Entries → Writing B
  write_object = Write.write_object binn

  abbrev pub write_root : Object → Option (Bool × B)
  write_root = Write.write_root binn

  -- `object` is what `benchmark_object_create(object_size)` gives. `none` is a root that has no children, or a write
  -- to a null pointer where the file could not be opened.
  unfoldable pub setup_test : Stdio → Object → ℕ → Disk → Option (Bool × Disk)
  setup_test stdio object object_size disk = elim (write_root object) [
    | none ↦ none
    | some (ok, root) ↦
        if ok
        then elim (write_open stdio
            (benchmark_filename stdio.decimal 64 object_size format_binn none) (binn.bytes root)
            disk) [ none ↦ none | some written ↦ some (true, close_file written) ]
        else some (false, disk)
  ]
