-- ===== src/HashObject/Setup/Timed.antt =====
-- src/hash/hash-object.c under `go`.
use schemaless_benchmarks.Base.{
  ℕ, ◌+◌, ◌-◌, ◌*◌, ◌^◌, ◌≤◌, ◌≡◌, refl, arith, ap, ◌∙◌, true, List, length,
}
use schemaless_benchmarks.Hash.{hash_initial_value}
use schemaless_benchmarks.Object.{Object}
use schemaless_benchmarks.Benchmark.{Malloc}
use schemaless_benchmarks.Benchmark.Copy.{benchmark_in_situ_copy-some}
use schemaless_benchmarks.Benchmark.Go.{scored}
use schemaless_benchmarks.Benchmark.Go.Steady.{IsSteady, go-IsSteady}
use schemaless_benchmarks.Benchmark.Load.Laws.{Clock, go_by, timed_by}
use schemaless_benchmarks.HashData.{data_size, random_data}
use schemaless_benchmarks.HashData.Laws.{length-random_data, data_size-small}
use schemaless_benchmarks.HashObject.{hash_object, run_test}
use schemaless_benchmarks.HashObject.Setup.{State, setup_test, teardown_test, test}

-- For a size up to 5, if the copies can be allocated, `go` ends by the clock and reports the hash of the created
-- object from the initial value. The object is destroyed; the block of 100 * 8 ^ size bytes is not freed.
pub go-hash_object :
    (clock : Clock) (create : ℕ → Object) (rand : ℕ → ℕ) (malloc : Malloc) (object_size : ℕ)
    (w : State)
    → object_size ≤ 5
    → malloc (100 * 8 ^ object_size + 1) ≡ true
    → (bytes : List ℕ) × (length bytes ≡ 100 * 8 ^ object_size)
      × (go_by clock (test create rand malloc) object_size w
          ≡ scored
              (hash_object (create object_size) hash_initial_value)
              (timed_by clock object_size)
              (record w {
                root_object = create object_size;
                insitu_data = bytes;
                blocks = w.blocks + 1;
              }))
unfolding test setup_test teardown_test run_test
go-hash_object clock create rand malloc object_size w small given =
    let o = create object_size in
    let bytes = random_data rand 0 (data_size object_size) in
    let size =
      length-random_data rand 0 (data_size object_size) ∙ data_size-small object_size small in
    let filled : State = record w {
      root_object = o;
      insitu_data = bytes;
      objects = w.objects + 1;
      blocks = w.blocks + 1;
    } in
    let granted : malloc (length bytes + 1) ≡ true = rw size given in
    let steady : IsSteady (test create rand malloc) (λ h. hash_object o h) filled =
      λ h. rw (run_test, benchmark_in_situ_copy-some malloc bytes granted) refl in
    let freed : w.objects + 1 - 1 ≡ w.objects = omega arith in
    (
      bytes,
      size,
      go-IsSteady (test create rand malloc) (λ h. hash_object o h) clock.warming clock.working
            clock.warm_rounds clock.work_rounds clock.fuel object_size w filled refl refl steady
            clock.warm clock.work clock.warm_below clock.work_below
          ∙ ap
              (λ (left : State).
                scored (hash_object o hash_initial_value) (timed_by clock object_size) left)
              (rw freed refl),
    )
