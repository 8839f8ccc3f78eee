-- ===== src/Mpack/File.antt =====
-- src/mpack/mpack-file.c: `setup_test`, which writes the data file. The text of its `write_object` is that of
-- src/mpack/mpack-write.c.
pub mod Laws
mod Tests
use schemaless_benchmarks.Base.{ℕ, Bool, true, false, none, List, if◌then◌else◌}
use schemaless_benchmarks.Object.{Object}
use schemaless_benchmarks.Writer.{Writing, quiet}
use schemaless_benchmarks.Benchmark.Load.{benchmark_filename, format_messagepack}
use schemaless_benchmarks.Benchmark.Store.{Disk, Stdio, put_file}
use schemaless_benchmarks.Mpack.Write.{Call}
use schemaless_benchmarks.Mpack.Write as Write

-- The library's writer of files: `mpack_writer_init_file`, given whether the file can be opened; what a call does;
-- what has been written; and whether `mpack_writer_destroy` reports no error.
pub record FileWriter (W : Type 0) : Type 0 where
  pub init_file : Bool → W
  pub perform : Call → W → W
  pub contents : W → List ℕ
  pub is_ok : W → Bool

abbrev pub write_object : {W : Type 0} → (Call → Writing W) → Object → Writing W
write_object perform = Write.write_object perform

-- `object` is what `benchmark_object_create(object_size)` gives. `mpack_writer_destroy` closes the file.
unfoldable pub setup_test : {W : Type 0} → FileWriter W → Stdio → Object → ℕ → Disk → Bool × Disk
setup_test writer stdio object object_size disk =
    let filename = benchmark_filename stdio.decimal 64 object_size format_messagepack none in
    let written =
      (write_object (quiet writer.perform) object (writer.init_file (stdio.opens filename))).1 in
    let stored =
      if stdio.opens filename then put_file filename (writer.contents written) disk else disk in
    if writer.is_ok written then (true, stored) else (false, stored)
