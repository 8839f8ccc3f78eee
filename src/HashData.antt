-- ===== src/HashData.antt =====
-- src/hash/hash-data.c: the hash of flat data.
pub mod Laws
mod Tests
use schemaless_benchmarks.Base.{
  ℕ, zero, suc, ◌+◌, ◌-◌, ◌*◌, ◌%◌, ◌^◌, Bool, true, List, [], ◌∷◌, u64,
}
use schemaless_benchmarks.Hash.{hash_str}
use schemaless_benchmarks.Benchmark.Go.{Test}

-- `hash_data`, and the number of blocks that are kept.
pub record Data : Type 0 where
  pub hash_data : List ℕ
  pub blocks : ℕ

-- `hash_size = 100; for (…; i < object_size; …) hash_size <<= 3;`
unfoldable pub data_size : ℕ → ℕ
data_size zero = 100
data_size (suc object_size) = u64 (data_size object_size * 8)

-- The loop from the index `i` on, for the given number of rounds; `rand` is what each call gives after `srand(123)`.
unfoldable pub random_data : (ℕ → ℕ) → ℕ → ℕ → List ℕ
random_data rand i zero = []
random_data rand i (suc n) = rand i % 256 ∷ random_data rand (i + 1) n

unfoldable pub run_test : ℕ → Data → Bool × ℕ × Data
run_test hash w = (true, hash_str hash w.hash_data, w)

-- `malloc` is taken to succeed, as the code takes it to.
unfoldable pub setup_test : (ℕ → ℕ) → ℕ → Data → Bool × Data
setup_test rand object_size w = (
  true,
  record w { hash_data = random_data rand 0 (data_size object_size); blocks = w.blocks + 1 },
)

unfoldable pub teardown_test : Data → Data
teardown_test w = record w { blocks = w.blocks - 1 }

-- `is_benchmark` returns true.
unfoldable pub test : (ℕ → ℕ) → Test Data
test rand = record {
  setup_test = setup_test rand;
  is_benchmark = true;
  run_test = run_test;
  teardown_test = teardown_test;
}
