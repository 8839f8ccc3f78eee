-- ===== src/Yajl/Gen/Timed.antt =====
-- src/yajl/yajl-gen.c under `go`.
use schemaless_benchmarks.Base.{ℕ, ◌≡◌, true, List, ◌++◌}
use schemaless_benchmarks.Hash.{hash_initial_value, hash_str}
use schemaless_benchmarks.Object.{Object}
use schemaless_benchmarks.Benchmark.Go.{scored}
use schemaless_benchmarks.Benchmark.Load.Laws.{Clock, go_by, timed_by}
use schemaless_benchmarks.Benchmark.Root.{Root}
use schemaless_benchmarks.Benchmark.Root.Laws.{go_by-object_test}
use schemaless_benchmarks.Writer.{Writing, perform_all}
use schemaless_benchmarks.Writer.Laws.{Grows, trace}
use schemaless_benchmarks.Yajl.Gen.{Call, run_test, setup_test, teardown_test, test}
use schemaless_benchmarks.Yajl.Gen.Laws.{calls, run_test-yajl_gen}

-- If YAJL accepts the calls for the events of the created object, in the order of the document, and each call that it
-- accepts adds bytes to what is written, which may depend on its state, then `go` ends by the clock. It reports the
-- hash of what the writer held at the start and the bytes that these calls add after it, each in the state that the
-- calls before it leave. Every object that was created is destroyed.
pub go-yajl_gen :
    {W : Type 0} (clock : Clock) (create : ℕ → Object) (perform : Call → Writing W)
    (contents : W → List ℕ) (added : W → Call → List ℕ) (start : W) (object_size : ℕ) (w : Root)
    → Grows perform contents added
    → (perform_all perform (calls (create object_size)) start).0 ≡ true
    → go_by clock (test create perform contents start) object_size w
      ≡ scored
          (hash_str hash_initial_value
            (contents start ++ trace perform added (calls (create object_size)) start))
          (timed_by clock object_size)
          (record w { root_object = create object_size })
unfolding test setup_test teardown_test
go-yajl_gen clock create perform contents added start object_size w grows accepted =
    go_by-object_test clock create (run_test perform contents start)
      (λ h. hash_str h (contents start ++ trace perform added (calls (create object_size)) start))
      object_size w
      (λ h. run_test-yajl_gen perform contents added start (create object_size) h grows accepted)
