-- ===== src/Benchmark/Store/Samples.antt =====
-- A file system with room for all files, and a disk without files.
use schemaless_benchmarks.Base.{◌+◌, true, none, [], ◌∷◌, length}
use schemaless_benchmarks.Benchmark.Store.{Disk, Stdio}

abbrev pub roomy : Stdio
roomy = record {
  opens = λ name. true;
  stored = λ bytes. length bytes;
  fread = λ bytes. length bytes;
  decimal = λ n. (48 + n) ∷ [];
}

abbrev pub blank : Disk
blank = record { files = λ name. none; open_files = 0; pending = [] }
