-- ===== src/Benchmark.antt =====
-- src/common/benchmark.h and src/common/benchmark.c: what the harness gives each test.
pub mod Copy
pub mod Fragment
pub mod Go
pub mod Load
pub mod Store
pub mod Root
use schemaless_benchmarks.Base.{
  ℕ, ◌+◌, ◌-◌, Bool, Option, none, some, List, [], ◌∷◌, ◌++◌, length, if◌then◌else◌,
}

-- The outcome of the C library's `malloc(size)`: whether it gives a block.
abbrev pub Malloc : Type 0
Malloc = ℕ → Bool

-- A copy of the data with a null after it, where the block for it can be allocated.
unfoldable pub benchmark_in_situ_copy : Malloc → List ℕ → Option (List ℕ)
benchmark_in_situ_copy malloc source =
    if malloc (length source + 1) then some (source ++ 0 ∷ []) else none

-- What a run of a test that reads holds: the copies, and the values that its library has made.
pub record Held : Type 0 where
  pub copies : ℕ
  pub values : ℕ

abbrev pub copied : Held → Held
copied held = record held { copies = held.copies + 1 }

unfoldable pub benchmark_in_situ_free : Held → Held
benchmark_in_situ_free held = record held { copies = held.copies - 1 }

-- The library makes a value, and the test frees one.
abbrev pub made : Held → Held
made held = record held { values = held.values + 1 }

unfoldable pub destroyed : Held → Held
destroyed held = record held { values = held.values - 1 }

-- `return ok;` with `*hash_out` and what is held.
abbrev pub ending : Bool × ℕ → Held → Bool × ℕ × Held
ending result held = (result.0, result.1, held)
