-- ===== src/Ubj/File/Stored.antt =====
-- The two files that src/ubj/ubj-file.c leaves, as src/ubj/ubj-read.c loads them.
use schemaless_benchmarks.Base.{
  ℕ, ◌≤◌, ◌≡◌, refl, arith, ◌==◌, Bool, true, false, none, some, List, [], ◌∷◌, if◌then◌else◌, ℤ,
}
use schemaless_benchmarks.Generator.Init.{str_equal}
use schemaless_benchmarks.Generator.Init.Numbers.{str_equal_self}
use schemaless_benchmarks.Object.{Object}
use schemaless_benchmarks.Object.Valid.{IsValid}
use schemaless_benchmarks.Benchmark.Load.{Holding, benchmark_filename, format_ubjson, unopt}
use schemaless_benchmarks.Benchmark.Load.Laws.{IsOnDisk, with_file, setup-IsOnDisk}
use schemaless_benchmarks.Benchmark.Store.{Disk, Stdio, put_file, reading}
use schemaless_benchmarks.Benchmark.Store.Laws.{IsRoomy}
use schemaless_benchmarks.Ubj.Read as Read
use schemaless_benchmarks.Ubj.Write.{UbjType}
use schemaless_benchmarks.Ubj.Write.Document.{calls}
use schemaless_benchmarks.Ubj.File.{FileWriter, write_file, setup_test}
use schemaless_benchmarks.Ubj.File.Laws.{issue_all, write_object-ubj_write}

abbrev pub name_of : Stdio → ℕ → Bool → List ℕ
name_of stdio object_size sized =
    benchmark_filename stdio.decimal 64 object_size format_ubjson
      (if sized then none else some unopt)

-- The file system can hold both files, and `%i` prints a digit first.
pub record Roomy (stdio : Stdio) (object_size : ℕ) : Type 0 where
  pub room : (sized : Bool) (bytes : List ℕ) → IsRoomy stdio (name_of stdio object_size sized) bytes
  pub first : ℕ
  pub others : List ℕ
  pub spelled : stdio.decimal object_size ≡ first ∷ others
  pub digit : first ≤ b'9'

-- The two files have different names.
names_differ :
    (stdio : Stdio) (object_size : ℕ)
    → Roomy stdio object_size
    → str_equal (name_of stdio object_size true) (name_of stdio object_size false) ≡ false
unfolding benchmark_filename
names_differ stdio object_size roomy =
    let no_letter : roomy.first == b'u' ≡ false = ground (arith, roomy.digit) in
    rw (roomy.spelled, no_letter) refl

-- The disk with both files.
abbrev both_files : Stdio → ℕ → (Bool → List ℕ) → Disk → Disk
both_files stdio object_size bytes disk =
    put_file (name_of stdio object_size false) (bytes false)
      (put_file (name_of stdio object_size true) (bytes true) disk)

both-IsOnDisk :
    (stdio : Stdio) (object_size : ℕ) (bytes : Bool → List ℕ) (disk : Disk) (sized : Bool)
    → Roomy stdio object_size
    → IsOnDisk
        (reading stdio (both_files stdio object_size bytes disk))
        format_ubjson
        object_size
        (if sized then none else some unopt)
        (bytes sized)
unfolding put_file
both-IsOnDisk stdio object_size bytes disk true roomy = record {
  opened =
      rw (names_differ stdio object_size roomy, str_equal_self (name_of stdio object_size true))
        refl;
  whole = (roomy.room true (bytes true)).delivered;
}
both-IsOnDisk stdio object_size bytes disk false roomy = record {
  opened = rw (str_equal_self (name_of stdio object_size false)) refl;
  whole = (roomy.room false (bytes false)).delivered;
}

-- The bytes that the calls for an object put into a file.
abbrev pub bytes_of : {L : Type 0} → (ℤ → UbjType) → FileWriter L → Object → Bool → List ℕ
bytes_of min_type writer o sized =
    writer.contents (issue_all writer.perform (calls min_type sized o) writer.open_file)

write_file-IsValid :
    (min_type : ℤ → UbjType) {L : Type 0} (writer : FileWriter L) (stdio : Stdio) (o : Object)
    (object_size : ℕ) (sized : Bool) (disk : Disk)
    → IsValid o
    → Roomy stdio object_size
    → write_file min_type writer stdio o object_size sized disk
      ≡ (true, put_file (name_of stdio object_size sized) (bytes_of min_type writer o sized) disk)
unfolding write_file
write_file-IsValid min_type writer stdio o object_size sized disk v roomy =
    rw
      (
        write_file,
        (roomy.room sized []).opened,
        write_object-ubj_write min_type sized writer.perform o writer.open_file v,
      )
      refl

-- For each valid object, if `fopen` opens the names of both files, `fwrite` and `fread` pass on each file whole, and
-- `%i` prints a digit first, then `setup_test` succeeds, and leaves no more files open than before. From that disk,
-- the `setup_test` of the test that reads ubjson loads, with and without optimization, the bytes of the calls that
-- ubj-write.c makes for the object in that configuration: neither file takes the place of the other.
pub setup_test-ubj_file :
    (min_type : ℤ → UbjType) {L : Type 0} (writer : FileWriter L) (stdio : Stdio) (o : Object)
    (object_size : ℕ) (disk : Disk) (w : Holding)
    → IsValid o
    → Roomy stdio object_size
    → (written : Disk) × (setup_test min_type writer stdio o object_size disk ≡ (true, written))
      × (written.open_files ≡ disk.open_files)
      × (Read.setup_test (reading stdio written) true object_size w
          ≡ (true, with_file (bytes_of min_type writer o true) w))
      × (Read.setup_test (reading stdio written) false object_size w
          ≡ (true, with_file (bytes_of min_type writer o false) w))
unfolding setup_test put_file Read.setup_test
setup_test-ubj_file min_type writer stdio o object_size disk w v roomy =
    let bytes = bytes_of min_type writer o in
    let first = put_file (name_of stdio object_size true) (bytes true) disk in
    let after = both_files stdio object_size bytes disk in
    (
      after,
      rw
          (
            setup_test,
            write_file-IsValid min_type writer stdio o object_size true disk v roomy,
            write_file-IsValid min_type writer stdio o object_size false first v roomy,
          )
          refl,
      refl,
      setup-IsOnDisk (reading stdio after) format_ubjson object_size none (bytes true) w
          (both-IsOnDisk stdio object_size bytes disk true roomy),
      setup-IsOnDisk (reading stdio after) format_ubjson object_size (some unopt) (bytes false) w
          (both-IsOnDisk stdio object_size bytes disk false roomy),
    )
