-- ===== src/Binn/Load/Timed.antt =====
-- src/binn/binn-load.c under `go`.
use schemaless_benchmarks.Base.{
  ◌<◌, ◌^◌, ℕ, ◌+◌, ◌≡◌, true, none, some, List, [], ◌∷◌, ◌++◌, length,
}
use schemaless_benchmarks.Hash.{hash_initial_value}
use schemaless_benchmarks.HashObject
use schemaless_benchmarks.Object.{Object}
use schemaless_benchmarks.Benchmark.{Malloc}
use schemaless_benchmarks.Benchmark.Go.{scored}
use schemaless_benchmarks.Benchmark.Load.{Libc, Holding, load_data_file, format_binn}
use schemaless_benchmarks.Benchmark.Load.Laws.{IsOnDisk, Clock, go_by, timed_by, go_by-file_test}
use schemaless_benchmarks.HashObject.Laws.{canonical}
use schemaless_benchmarks.Binn.Load.{Value, value, run_test, test}
use schemaless_benchmarks.Binn.Load.Laws.{IsContainer, run_test-binn_load}

-- With the data file on disk and fewer than 2 ^ 31 timed iterations, if the copy can be allocated and what binn loads
-- is a list or an object that stands for an object, up to the sign that the format gives unsigned numbers, then `go`
-- ends by the clock. It reports that object's reference hash and the iterations that were timed, and leaves no file
-- open, and no block, copy or value of the library behind.
pub go-binn_load :
    (clock : Clock) (libc : Libc) (malloc : Malloc) (binn_load : List ℕ → Value) (object_size : ℕ)
    (bytes : List ℕ) (t : Value) (read original : Object) (w : Holding)
    → timed_by clock object_size < 2 ^ 31
    → IsOnDisk libc format_binn object_size none bytes
    → malloc (length bytes + 1) ≡ true
    → binn_load (bytes ++ 0 ∷ []) ≡ t
    → IsContainer t
    → value t ≡ some read
    → canonical read ≡ canonical original
    → go_by clock (test libc malloc binn_load) object_size w
      ≡ scored
          (HashObject.hash_object original hash_initial_value)
          (timed_by clock object_size)
          (record w { file_data = bytes })
unfolding test load_data_file
go-binn_load clock libc malloc binn_load object_size bytes t read original w countable on_disk given
      loaded root stands same =
    go_by-file_test clock libc format_binn none (run_test malloc binn_load)
      (HashObject.hash_object original) object_size bytes w on_disk
      (λ h held.
        run_test-binn_load malloc binn_load bytes t read original h held given loaded root stands
          same)
