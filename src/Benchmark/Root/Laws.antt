-- ===== src/Benchmark/Root/Laws.antt =====
-- `go` on a test that writes an object.
use schemaless_benchmarks.Base.{ℕ, ◌+◌, ◌-◌, ◌≡◌, refl, arith, ap, ◌∙◌, Bool, true}
use schemaless_benchmarks.Hash.{hash_initial_value}
use schemaless_benchmarks.Object.{Object}
use schemaless_benchmarks.Benchmark.Go.{scored}
use schemaless_benchmarks.Benchmark.Go.Steady.{IsSteady, go-IsSteady}
use schemaless_benchmarks.Benchmark.Load.Laws.{Clock, go_by, timed_by}
use schemaless_benchmarks.Benchmark.Root.{Root, create_root, destroy_root, object_test}

-- With runs that hash the created object by `f`, `go` by a clock is scored with the hash that `f` gives for the
-- initial value, and every object that was created is destroyed.
pub go_by-object_test :
    (clock : Clock) (create : ℕ → Object) (run_test : Object → ℕ → Bool × ℕ) (f : ℕ → ℕ)
    (object_size : ℕ) (w : Root)
    → ((h : ℕ) → run_test (create object_size) h ≡ (true, f h))
    → go_by clock
        (object_test (λ size v. create_root (create size) v) run_test destroy_root)
        object_size
        w
      ≡ scored
          (f hash_initial_value)
          (timed_by clock object_size)
          (record w { root_object = create object_size })
unfolding object_test create_root destroy_root
go_by-object_test clock create run_test f object_size w runs =
    let test = object_test (λ size v. create_root (create size) v) run_test destroy_root in
    let created = record w { root_object = create object_size; objects = w.objects + 1 } in
    let steady : IsSteady test f created = λ h. rw (runs h) refl in
    let freed : w.objects + 1 - 1 ≡ w.objects = omega arith in
    go-IsSteady test f clock.warming clock.working clock.warm_rounds clock.work_rounds clock.fuel
      object_size w created refl refl steady clock.warm clock.work clock.warm_below clock.work_below
    ∙ ap (λ (left : Root). scored (f hash_initial_value) (timed_by clock object_size) left)
        (rw freed refl)
