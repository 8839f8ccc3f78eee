-- ===== src/Yajl/Parse/Laws/Document.antt =====
-- `run_test` on the text of an object.
use schemaless_benchmarks.Base.{Bool, ℕ, ◌+◌, ◌<◌, ◌≤◌, ◌≡◌, refl, ap, true, false, List, length}
use schemaless_benchmarks.Benchmark.{Malloc, Held, copied}
use schemaless_benchmarks.Benchmark.Copy.{benchmark_in_situ_copy-some, copy_freed, value_freed}
use schemaless_benchmarks.HashObject
use schemaless_benchmarks.Object.{Object}
use schemaless_benchmarks.Writer.{events}
use schemaless_benchmarks.Yajl.Parse.{Memory, Text, run_test}
use schemaless_benchmarks.Object.Nesting.{nesting}
use schemaless_benchmarks.Yajl.Parse.Laws.Deep.{callbacks}
use schemaless_benchmarks.Yajl.Parse.Laws.Root.{document-Runs}
use schemaless_benchmarks.Yajl.Parse.Laws.Fails.{document-Fails}

-- If the copy of the file can be allocated and YAJL finds in the file a whole document with the events of
-- an object of at most 31 levels, then `run_test` succeeds with that object's reference hash, whatever the
-- memory of the parser held before and whenever `depth` is read, and the test holds what it held before.
pub run_test-yajl_parse :
    (in_register : Bool) (malloc : Malloc) (parse : List ℕ → ℕ → Text) (rest : Memory)
    (file_data : List ℕ) (o : Object) (hash : ℕ) (held : Held)
    → malloc (length file_data + 1) ≡ true
    → parse file_data (length file_data)
      ≡ record { callbacks = callbacks (events o); complete = true }
    → nesting o ≤ 31
    → run_test in_register malloc parse rest file_data hash held
      ≡ (true, HashObject.hash_object o hash, held)
unfolding run_test
run_test-yajl_parse in_register malloc parse rest file_data o hash held given found shallow =
    let (after, ran, hashed) = document-Runs in_register o hash rest shallow in
    rw
      (
        run_test,
        benchmark_in_situ_copy-some malloc file_data given,
        found,
        ran,
        value_freed (copied held),
        copy_freed held,
      )
      (ap (λ h. (true, h, held)) hashed)

-- If YAJL finds in the file a whole document with the events of an object of more than 32 levels, then `run_test`
-- fails, whenever `depth` is read, and the test holds what it held before.
pub run_test-too_deep :
    (in_register : Bool) (malloc : Malloc) (parse : List ℕ → ℕ → Text) (rest : Memory)
    (file_data : List ℕ) (o : Object) (hash : ℕ) (held : Held)
    → malloc (length file_data + 1) ≡ true
    → parse file_data (length file_data)
      ≡ record { callbacks = callbacks (events o); complete = true }
    → 32 < nesting o
    → ((run_test in_register malloc parse rest file_data hash held).0 ≡ false)
      × ((run_test in_register malloc parse rest file_data hash held).2 ≡ held)
unfolding run_test
run_test-too_deep in_register malloc parse rest file_data o hash held given found deep =
    rw
      (
        run_test,
        benchmark_in_situ_copy-some malloc file_data given,
        found,
        document-Fails in_register o hash rest deep,
        value_freed (copied held),
        copy_freed held,
      )
      (refl, refl)
