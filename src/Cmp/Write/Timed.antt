-- ===== src/Cmp/Write/Timed.antt =====
-- src/cmp/cmp-write.c under `go`.
use schemaless_benchmarks.Base.{ℕ, ◌≡◌, List}
use schemaless_benchmarks.Hash.{hash_initial_value, hash_str}
use schemaless_benchmarks.Object.{Object}
use schemaless_benchmarks.Buffer.{Buffer, Realloc}
use schemaless_benchmarks.Benchmark.Go.{scored}
use schemaless_benchmarks.Benchmark.Load.Laws.{Clock, go_by, timed_by}
use schemaless_benchmarks.Benchmark.Root.{Root}
use schemaless_benchmarks.Benchmark.Root.Laws.{go_by-object_test}
use schemaless_benchmarks.Writer.{Writing, events, encode_all, bytes_all}
use schemaless_benchmarks.Writer.Laws.{Appends}
use schemaless_benchmarks.Cmp.Write.{
  Call, Writer, buffer_cmp_writer, run_test, encode, setup_test, teardown_test, test,
}
use schemaless_benchmarks.Cmp.Write.Laws.{run_test-cmp_write}

-- If every call succeeds and adds its bytes to what is written, `go` ends by the clock. It reports the hash of the
-- bytes for all the created object's events, in the order of the document, and every object that was created is
-- destroyed.
pub go-cmp_write :
    (clock : Clock) (create : ℕ → Object) (cmp_init : Writer → Call → Writing Buffer)
    (realloc : Realloc) (bytes_of : Call → List ℕ) (object_size : ℕ) (w : Root)
    → Appends (cmp_init (buffer_cmp_writer realloc)) (λ buffer. buffer.contents) bytes_of
    → go_by clock (test create cmp_init realloc) object_size w
      ≡ scored
          (hash_str hash_initial_value
            (bytes_all bytes_of (encode_all encode (events (create object_size)))))
          (timed_by clock object_size)
          (record w { root_object = create object_size })
unfolding test setup_test teardown_test
go-cmp_write clock create cmp_init realloc bytes_of object_size w adds =
    go_by-object_test clock create (run_test cmp_init realloc)
      (λ h. hash_str h (bytes_all bytes_of (encode_all encode (events (create object_size)))))
      object_size w (λ h. run_test-cmp_write cmp_init realloc bytes_of (create object_size) h adds)
