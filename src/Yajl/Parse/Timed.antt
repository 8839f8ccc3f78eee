-- ===== src/Yajl/Parse/Timed.antt =====
-- src/yajl/yajl-parse.c under `go`.
use schemaless_benchmarks.Base.{Bool, ◌<◌, ◌^◌, ℕ, ◌+◌, ◌≡◌, ◌≤◌, true, none, List, length}
use schemaless_benchmarks.Hash.{hash_initial_value}
use schemaless_benchmarks.HashObject
use schemaless_benchmarks.Object.{Object}
use schemaless_benchmarks.Benchmark.{Malloc}
use schemaless_benchmarks.Benchmark.Go.{scored}
use schemaless_benchmarks.Benchmark.Load.{Libc, Holding, load_data_file, format_json}
use schemaless_benchmarks.Benchmark.Load.Laws.{IsOnDisk, Clock, go_by, timed_by, go_by-file_test}
use schemaless_benchmarks.Object.Nesting.{nesting}
use schemaless_benchmarks.Writer.{events}
use schemaless_benchmarks.Yajl.Parse.{Memory, Text, run_test, test}
use schemaless_benchmarks.Yajl.Parse.Laws.Deep.{callbacks}
use schemaless_benchmarks.Yajl.Parse.Laws.Document.{run_test-yajl_parse}

-- With the data file on disk and fewer than 2 ^ 31 timed iterations, if the copy can be allocated and YAJL finds in
-- the file a whole document with the events of an object of at most 31 levels, then `go` ends by the clock. It
-- reports that object's reference hash and the iterations that were timed, and leaves no file open, and no block,
-- copy or value of the library behind.
pub go-yajl_parse :
    (in_register : Bool) (clock : Clock) (libc : Libc) (malloc : Malloc) (parse : List ℕ → ℕ → Text)
    (rest : Memory) (object_size : ℕ) (bytes : List ℕ) (o : Object) (w : Holding)
    → timed_by clock object_size < 2 ^ 31
    → IsOnDisk libc format_json object_size none bytes
    → malloc (length bytes + 1) ≡ true
    → parse bytes (length bytes) ≡ record { callbacks = callbacks (events o); complete = true }
    → nesting o ≤ 31
    → go_by clock (test in_register libc malloc parse rest) object_size w
      ≡ scored
          (HashObject.hash_object o hash_initial_value)
          (timed_by clock object_size)
          (record w { file_data = bytes })
unfolding test load_data_file
go-yajl_parse in_register clock libc malloc parse rest object_size bytes o w countable on_disk given
      found shallow =
    go_by-file_test clock libc format_json none (run_test in_register malloc parse rest)
      (HashObject.hash_object o) object_size bytes w on_disk
      (λ h held.
        run_test-yajl_parse in_register malloc parse rest bytes o h held given found shallow)
