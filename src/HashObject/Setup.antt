-- ===== src/HashObject/Setup.antt =====
-- src/hash/hash-object.c: the functions of the test. The data that is copied in each run is filled as in
-- src/hash/hash-data.c.
pub mod Timed
mod Tests
use schemaless_benchmarks.Base.{ℕ, ◌+◌, ◌-◌, Bool, true, false, Option, none, some, List}
use schemaless_benchmarks.Object.{Object}
use schemaless_benchmarks.Benchmark.{Malloc}
use schemaless_benchmarks.Benchmark.Go.{Test}
use schemaless_benchmarks.HashData.{data_size, random_data}
use schemaless_benchmarks.HashObject.{run_test}

-- `root_object` and `insitu_data`, with the numbers of objects and of other blocks that are kept.
pub record State : Type 0 where
  pub root_object : Object
  pub insitu_data : List ℕ
  pub objects : ℕ
  pub blocks : ℕ

-- `create` is the object that `benchmark_object_create` gives for a size, and `rand` what each call of it gives after
-- `srand(123)`.
unfoldable pub setup_test : (ℕ → Object) → (ℕ → ℕ) → ℕ → State → Bool × State
setup_test create rand object_size w = (
  true,
  record w {
    root_object = create object_size;
    insitu_data = random_data rand 0 (data_size object_size);
    objects = w.objects + 1;
    blocks = w.blocks + 1;
  },
)

-- `object_destroy(root_object);` and no more.
unfoldable pub teardown_test : State → State
teardown_test w = record w { objects = w.objects - 1 }

-- The result of `run_test` with `*hash_out`.
abbrev pub reported : Option ℕ → ℕ → State → Bool × ℕ × State
reported none hash w = (false, hash, w)
reported (some hash') hash w = (true, hash', w)

-- `is_benchmark` returns true.
unfoldable pub test : (ℕ → Object) → (ℕ → ℕ) → Malloc → Test State
test create rand malloc = record {
  setup_test = setup_test create rand;
  is_benchmark = true;
  run_test = λ hash w. reported (run_test malloc w.root_object w.insitu_data hash) hash w;
  teardown_test = teardown_test;
}
