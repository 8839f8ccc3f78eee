-- ===== src/Mpack/File/Laws.antt =====
-- The file that src/mpack/mpack-file.c writes, read by src/mpack/mpack-read.c.
use schemaless_benchmarks.Base.{ℕ, ◌+◌, ◌^◌, ◌<◌, ◌≡◌, refl, true, none, some, List, [], length}
use schemaless_benchmarks.HashObject.{hash_object}
use schemaless_benchmarks.Object.{Object}
use schemaless_benchmarks.Object.Fits.{Fits}
use schemaless_benchmarks.Object.Nesting.{nesting}
use schemaless_benchmarks.Benchmark.{Malloc}
use schemaless_benchmarks.Benchmark.Load.{
  Holding, benchmark_filename, format_messagepack, load_data_file,
}
use schemaless_benchmarks.Benchmark.Load.Laws.{with_file, setup-IsOnDisk}
use schemaless_benchmarks.Benchmark.Store.{Disk, Stdio, put_file, reading}
use schemaless_benchmarks.Benchmark.Store.Laws.{IsRoomy, put_file-files, file-IsOnDisk}
use schemaless_benchmarks.Writer.{quiet, encode_all, events}
use schemaless_benchmarks.Writer.Laws.{Appends, perform_all-Keeps}
use schemaless_benchmarks.Mpack.Read as Read
use schemaless_benchmarks.Mpack.Read.{Mpack}
use schemaless_benchmarks.Mpack.Read.Laws.{ReadsBack}
use schemaless_benchmarks.Mpack.Read.Back.{mpack_read-write_object}
use schemaless_benchmarks.Mpack.Write.{Call, encode}
use schemaless_benchmarks.Mpack.Write.Laws.{write_object-mpack}
use schemaless_benchmarks.Mpack.File.{FileWriter, write_object, setup_test}

-- A file that can be opened: it is empty at first, each call adds its bytes, and no error is met.
pub record Stores {W : Type 0} (writer : FileWriter W) (bytes_of : Call → List ℕ) : Type 0 where
  pub empty : writer.contents (writer.init_file true) ≡ []
  pub adds : Appends (quiet writer.perform) writer.contents bytes_of
  pub fine : writer.is_ok (writer.init_file true) ≡ true
  pub stays_fine :
      (c : Call) (w : W) → writer.is_ok w ≡ true → writer.is_ok (writer.perform c w) ≡ true

write_object-fine :
    {W : Type 0} (writer : FileWriter W) (bytes_of : Call → List ℕ) (o : Object)
    → Stores writer bytes_of
    → writer.is_ok (write_object (quiet writer.perform) o (writer.init_file true)).1 ≡ true
write_object-fine writer bytes_of o stores =
    rw (write_object-mpack (quiet writer.perform) o (writer.init_file true)) (
      perform_all-Keeps writer.perform (λ w. writer.is_ok w ≡ true) stores.stays_fine
        (encode_all encode (events o)) (writer.init_file true) stores.fine)

-- For each object whose numbers and sizes fit the format: `setup_test` of the test that writes the file succeeds, and
-- leaves a file and no more files open than before. On that disk, `setup_test` of the test that reads it loads the
-- file, and its `run_test` succeeds with the object's reference hash. This holds if the library stores the bytes of
-- each call, its reader reads them back, the copy can be allocated, and the fuel is above the object's nesting.
pub mpack_read-mpack_file :
    {R W : Type 0} (writer : FileWriter W) (mpack : Mpack R) (bytes_of : Call → List ℕ)
    (Holds : R → List ℕ → Type 0) (stdio : Stdio) (malloc : Malloc) (object_size fuel hash : ℕ)
    (o : Object) (disk : Disk) (w : Holding)
    → Stores writer bytes_of
    → ReadsBack mpack bytes_of Holds
    → ((bytes : List ℕ)
        → IsRoomy stdio
            (benchmark_filename stdio.decimal 64 object_size format_messagepack none)
            bytes)
    → ((n : ℕ) → malloc n ≡ true)
    → Fits (2 ^ 32) o
    → nesting o < fuel
    → (bytes : List ℕ) × (written : Disk) × (setup_test writer stdio o object_size disk
        ≡ (true, written))
      × (written.open_files ≡ disk.open_files)
      × (Read.setup_test (reading stdio written) object_size w ≡ (true, with_file bytes w))
      × (Read.run_test mpack malloc fuel bytes hash ≡ some (true, hash_object o hash))
unfolding setup_test put_file Read.setup_test load_data_file
mpack_read-mpack_file writer mpack bytes_of Holds stdio malloc object_size fuel hash o disk w stores
      back room given fits p =
    let name = benchmark_filename stdio.decimal 64 object_size format_messagepack none in
    let bytes = writer.contents (write_object (quiet writer.perform) o (writer.init_file true)).1 in
    (
      bytes,
      put_file name bytes disk,
      rw (setup_test, (room bytes).opened, write_object-fine writer bytes_of o stores) refl,
      refl,
      setup-IsOnDisk (reading stdio (put_file name bytes disk)) format_messagepack object_size none
          bytes w
          (file-IsOnDisk stdio format_messagepack object_size none bytes (put_file name bytes disk)
            (room bytes) (put_file-files name bytes disk)),
      mpack_read-write_object malloc mpack bytes_of Holds writer.perform writer.contents
          (writer.init_file true) o fuel hash back stores.adds stores.empty
          (given (length bytes + 1)) fits p,
    )
