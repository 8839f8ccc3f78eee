-- ===== src/Jansson/Load/Timed.antt =====
-- src/jansson/jansson-load.c under `go`.
use schemaless_benchmarks.Base.{
  ◌<◌, ◌^◌, ℕ, ◌+◌, ◌≡◌, true, Option, none, some, List, [], ◌∷◌, ◌++◌, length,
}
use schemaless_benchmarks.Hash.{hash_initial_value}
use schemaless_benchmarks.HashObject
use schemaless_benchmarks.HashObject.Laws.{canonical}
use schemaless_benchmarks.Object.{Object}
use schemaless_benchmarks.Parser.{Tree, value}
use schemaless_benchmarks.Benchmark.{Malloc}
use schemaless_benchmarks.Benchmark.Go.{scored}
use schemaless_benchmarks.Benchmark.Load.{Libc, Holding, load_data_file, format_json}
use schemaless_benchmarks.Benchmark.Load.Laws.{IsOnDisk, Clock, go_by, timed_by, go_by-file_test}
use schemaless_benchmarks.Jansson.Load.{Leaf, leaf_value, key, run_test, test}
use schemaless_benchmarks.Jansson.Load.Laws.{run_test-jansson}

-- With the data file on disk and fewer than 2 ^ 31 timed iterations, if the copy can be allocated and the library
-- parses the file to a tree that stands for an object, up to the sign that the format gives unsigned numbers, then
-- `go` ends by the clock. It reports that object's reference hash and the iterations that were timed, and leaves no
-- file open, and no block, copy or value of the library behind.
pub go-jansson :
    (clock : Clock) (libc : Libc) (malloc : Malloc) (parse : List ℕ → ℕ → Option (Tree Leaf))
    (object_size : ℕ) (bytes : List ℕ) (t : Tree Leaf) (read original : Object) (w : Holding)
    → timed_by clock object_size < 2 ^ 31
    → IsOnDisk libc format_json object_size none bytes
    → malloc (length bytes + 1) ≡ true
    → parse (bytes ++ 0 ∷ []) (length bytes) ≡ some t
    → value leaf_value key t ≡ some read
    → canonical read ≡ canonical original
    → go_by clock (test libc malloc parse) object_size w
      ≡ scored
          (HashObject.hash_object original hash_initial_value)
          (timed_by clock object_size)
          (record w { file_data = bytes })
unfolding test load_data_file
go-jansson clock libc malloc parse object_size bytes t read original w countable on_disk given
      parsed stands same =
    go_by-file_test clock libc format_json none (run_test malloc parse)
      (HashObject.hash_object original) object_size bytes w on_disk
      (λ h held.
        run_test-jansson malloc parse bytes t read original h held given parsed stands same)
