-- ===== src/Mpack/Write/Timed.antt =====
-- src/mpack/mpack-write.c under `go`.
use schemaless_benchmarks.Base.{ℕ, ◌≡◌, Bool, true, List, ◌++◌}
use schemaless_benchmarks.Hash.{hash_initial_value, hash_str}
use schemaless_benchmarks.Object.{Object}
use schemaless_benchmarks.Benchmark.Go.{scored}
use schemaless_benchmarks.Benchmark.Load.Laws.{Clock, go_by, timed_by}
use schemaless_benchmarks.Benchmark.Root.{Root}
use schemaless_benchmarks.Benchmark.Root.Laws.{go_by-object_test}
use schemaless_benchmarks.Writer.{quiet, events, encode_all, bytes_all}
use schemaless_benchmarks.Writer.Laws.{Appends}
use schemaless_benchmarks.Mpack.Write.{Call, run_test, encode, setup_test, teardown_test, test}
use schemaless_benchmarks.Mpack.Write.Laws.{run_test-mpack_write}

-- If every call adds its bytes to what is written and the library reports no error, `go` ends by the clock. It
-- reports the hash of what the writer held at the start and the bytes for all the created object's events after it,
-- and every object that was created is destroyed.
pub go-mpack_write :
    {W : Type 0} (clock : Clock) (create : ℕ → Object) (perform : Call → W → W) (is_ok : W → Bool)
    (contents : W → List ℕ) (bytes_of : Call → List ℕ) (start : W) (object_size : ℕ) (w : Root)
    → Appends (quiet perform) contents bytes_of
    → ((w : W) → is_ok w ≡ true)
    → go_by clock (test create perform is_ok contents start) object_size w
      ≡ scored
          (hash_str hash_initial_value (
            contents start ++ bytes_all bytes_of (encode_all encode (events (create object_size)))))
          (timed_by clock object_size)
          (record w { root_object = create object_size })
unfolding test setup_test teardown_test
go-mpack_write clock create perform is_ok contents bytes_of start object_size w adds fine =
    go_by-object_test clock create (run_test perform is_ok contents start)
      (λ h.
        hash_str h
          (contents start ++ bytes_all bytes_of (encode_all encode (events (create object_size)))))
      object_size w
      (λ h.
        run_test-mpack_write perform is_ok contents bytes_of start (create object_size) h adds fine)
