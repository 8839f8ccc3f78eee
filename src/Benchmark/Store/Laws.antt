-- ===== src/Benchmark/Store/Laws.antt =====
-- A file that was written is there to be read.
use schemaless_benchmarks.Base.{ℕ, ◌≡◌, refl, arith, true, Option, some, List, length, take-length}
use schemaless_benchmarks.Generator.Init.Numbers.{str_equal_self}
use schemaless_benchmarks.Benchmark.Load.{benchmark_filename}
use schemaless_benchmarks.Benchmark.Load.Laws.{IsOnDisk}
use schemaless_benchmarks.Benchmark.Store.{
  Disk, Stdio, put_file, opened, write_open, close_file, flush, exit_process, reading,
}

-- The file system opens the name for writing, and stores and delivers these bytes whole.
pub record IsRoomy (stdio : Stdio) (name bytes : List ℕ) : Type 0 where
  pub opened : stdio.opens name ≡ true
  pub stored : stdio.stored bytes ≡ length bytes
  pub delivered : stdio.fread bytes ≡ length bytes

pub write_open-IsRoomy :
    (stdio : Stdio) (name bytes : List ℕ) (disk : Disk)
    → IsRoomy stdio name bytes
    → write_open stdio name bytes disk ≡ some (opened name bytes disk)
unfolding write_open
write_open-IsRoomy stdio name bytes disk roomy =
    rw (write_open, roomy.opened, roomy.stored, take-length bytes) refl

-- A file with these bytes can be read whole.
pub file-IsOnDisk :
    (stdio : Stdio) (format : List ℕ) (object_size : ℕ) (config : Option (List ℕ)) (bytes : List ℕ)
    (disk : Disk)
    → IsRoomy stdio (benchmark_filename stdio.decimal 64 object_size format config) bytes
    → disk.files (benchmark_filename stdio.decimal 64 object_size format config) ≡ some bytes
    → IsOnDisk (reading stdio disk) format object_size config bytes
file-IsOnDisk stdio format object_size config bytes disk roomy found = record {
  opened = found;
  whole = roomy.delivered;
}

pub put_file-files :
    (name bytes : List ℕ) (disk : Disk) → (put_file name bytes disk).files name ≡ some bytes
unfolding put_file
put_file-files name bytes disk = rw (str_equal_self name) refl

-- A file that was written is whole when it is closed, and as many files are open as before.
pub close_file-opened :
    (name bytes : List ℕ) (disk : Disk)
    → ((close_file (opened name bytes disk)).files name ≡ some bytes)
      × ((close_file (opened name bytes disk)).open_files ≡ disk.open_files)
unfolding close_file put_file
close_file-opened name bytes disk = (rw (str_equal_self name) refl, omega arith)

-- A file that was written and not closed is whole when the process has ended.
pub exit_process-opened :
    (name bytes : List ℕ) (disk : Disk)
    → (exit_process (opened name bytes disk)).files name ≡ some bytes
unfolding exit_process flush put_file
exit_process-opened name bytes disk = rw (str_equal_self name) refl
