-- ===== src/Benchmark/Store.antt =====
-- The disk that the tests which write files leave behind, and how src/common/benchmark.c reads it. The file system is
-- a parameter.
pub mod Laws
pub mod Samples
use schemaless_benchmarks.Base.{
  ℕ, ◌+◌, ◌-◌, Bool, true, false, Option, none, some, List, [], ◌∷◌, take, if◌then◌else◌,
}
use schemaless_benchmarks.Generator.Init.{str_equal}
use schemaless_benchmarks.Benchmark.Load.{Libc}

-- The contents of each name's file, the number of files that are open, and what the buffers of files that are open
-- hold for which name, the last one first.
pub record Disk : Type 0 where
  pub files : List ℕ → Option (List ℕ)
  pub open_files : ℕ
  pub pending : List (List ℕ × List ℕ)

-- Whether `fopen` opens a name for writing; how many of its bytes `fwrite` stores, and `fread` delivers; and the
-- digits that `snprintf` prints for `%i`.
pub record Stdio : Type 0 where
  pub opens : List ℕ → Bool
  pub stored : List ℕ → ℕ
  pub fread : List ℕ → ℕ
  pub decimal : ℕ → List ℕ

unfoldable pub put_file : List ℕ → List ℕ → Disk → Disk
put_file name contents disk = record disk {
  files = λ other. if str_equal other name then some contents else disk.files other;
}

-- `fopen(filename, "wb")` leaves an empty file, and what is written goes to the buffer.
abbrev pub opened : List ℕ → List ℕ → Disk → Disk
opened name bytes disk =
    put_file name []
      (record disk { open_files = disk.open_files + 1; pending = (name, bytes) ∷ disk.pending })

-- `FILE* file = fopen(filename, "wb"); fwrite(…, file);` with no look at either result: `none` stands for a write to
-- a null pointer.
unfoldable pub write_open : Stdio → List ℕ → List ℕ → Disk → Option Disk
write_open stdio name bytes disk =
    if stdio.opens name then some (opened name (take (stdio.stored bytes) bytes) disk) else none

-- `fclose(file);` for the file that was opened last: its buffer is written to it.
unfoldable pub close_file : Disk → Disk
close_file disk = elim disk.pending [
  | [] ↦ record disk { open_files = disk.open_files - 1 }
  | buffer ∷ buffers ↦
      put_file buffer.0 buffer.1
        (record disk { open_files = disk.open_files - 1; pending = buffers })
]

unfoldable pub flush : List (List ℕ × List ℕ) → Disk → Disk
flush [] disk = disk
flush (buffer ∷ buffers) disk = put_file buffer.0 buffer.1 (flush buffers disk)

-- The end of the process: the C library writes the buffers of all files that are still open, and closes them.
unfoldable pub exit_process : Disk → Disk
exit_process disk =
    let flushed = flush disk.pending disk in record flushed { open_files = 0; pending = [] }

-- What the tests that read files see of a disk.
abbrev pub reading : Stdio → Disk → Libc
reading stdio disk = record { fopen = disk.files; fread = stdio.fread; decimal = stdio.decimal }
