-- ===== src/Benchmark/Root.antt =====
-- What the tests that write an object share: `root_object`, which `setup_test` creates and `teardown_test` destroys.
pub mod Laws
use schemaless_benchmarks.Base.{ℕ, ◌+◌, ◌-◌, Bool, true}
use schemaless_benchmarks.Object.{Object}
use schemaless_benchmarks.Benchmark.Go.{Test}

-- `root_object`, and the number of objects that have been created and not destroyed.
pub record Root : Type 0 where
  pub root_object : Object
  pub objects : ℕ

-- `root_object = benchmark_object_create(object_size); return true;`
unfoldable pub create_root : Object → Root → Bool × Root
create_root object w = (true, record w { root_object = object; objects = w.objects + 1 })

-- `object_destroy(root_object);`, which frees the one block of the object.
unfoldable pub destroy_root : Root → Root
destroy_root w = record w { objects = w.objects - 1 }

-- A test that writes `root_object` and leaves it as it is.
unfoldable pub object_test :
    (ℕ → Root → Bool × Root) → (Object → ℕ → Bool × ℕ) → (Root → Root) → Test Root
object_test setup_test run_test teardown_test = record {
  setup_test = setup_test;
  is_benchmark = true;
  run_test = λ hash w. let (ok, hash') = run_test w.root_object hash in (ok, hash', w);
  teardown_test = teardown_test;
}
