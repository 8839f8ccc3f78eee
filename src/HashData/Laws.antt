-- ===== src/HashData/Laws.antt =====
-- The data of hash-data.c, and its test under `go`.
use schemaless_benchmarks.Base.{
  ℕ, zero, suc, ◌+◌, ◌-◌, ◌*◌, ◌^◌, ◌≤◌, ◌<◌, ◌≡◌, refl, arith, ap, ◌∙◌, All, List, length,
}
use schemaless_benchmarks.Hash.{hash_initial_value, hash_str}
use schemaless_benchmarks.Benchmark.Go.{scored}
use schemaless_benchmarks.Benchmark.Go.Steady.{IsSteady, go-IsSteady}
use schemaless_benchmarks.Benchmark.Load.Laws.{Clock, go_by, timed_by}
use schemaless_benchmarks.HashData.{
  Data, data_size, random_data, run_test, setup_test, teardown_test, test,
}

pub length-random_data : (rand : ℕ → ℕ) (i n : ℕ) → length (random_data rand i n) ≡ n
unfolding random_data
length-random_data rand i zero = refl
length-random_data rand i (suc n) = ap suc (length-random_data rand (i + 1) n)

random_data-IsBytes : (rand : ℕ → ℕ) (i n : ℕ) → All (λ b. b < 256) (random_data rand i n)
unfolding random_data
random_data-IsBytes rand i zero = tt
random_data-IsBytes rand i (suc n) = (omega arith, random_data-IsBytes rand (i + 1) n)

-- For the sizes that `main` takes.
pub data_size-small :
    (object_size : ℕ) → object_size ≤ 5 → data_size object_size ≡ 100 * 8 ^ object_size
unfolding data_size
data_size-small zero p = refl
data_size-small (suc zero) p = refl
data_size-small (suc (suc zero)) p = refl
data_size-small (suc (suc (suc zero))) p = refl
data_size-small (suc (suc (suc (suc zero)))) p = refl
data_size-small (suc (suc (suc (suc (suc zero))))) p = refl
data_size-small (suc (suc (suc (suc (suc (suc n)))))) p = absurd (omega arith)

-- For a size up to 5, `setup_test` fills 100 * 8 ^ size bytes. `go` ends by the clock, and reports the hash of those
-- bytes. The block that was allocated for them is freed.
pub go-hash_data :
    (clock : Clock) (rand : ℕ → ℕ) (object_size : ℕ) (w : Data)
    → object_size ≤ 5
    → (bytes : List ℕ) × (length bytes ≡ 100 * 8 ^ object_size)
      × All (λ b. b < 256) bytes
      × (go_by clock (test rand) object_size w
          ≡ scored
              (hash_str hash_initial_value bytes)
              (timed_by clock object_size)
              (record w { hash_data = bytes }))
unfolding test setup_test teardown_test run_test
go-hash_data clock rand object_size w small =
    let bytes = random_data rand 0 (data_size object_size) in
    let filled : Data = record w { hash_data = bytes; blocks = w.blocks + 1 } in
    let steady : IsSteady (test rand) (λ h. hash_str h bytes) filled = λ h. refl in
    let freed : w.blocks + 1 - 1 ≡ w.blocks = omega arith in
    (
      bytes,
      length-random_data rand 0 (data_size object_size) ∙ data_size-small object_size small,
      random_data-IsBytes rand 0 (data_size object_size),
      go-IsSteady (test rand) (λ h. hash_str h bytes) clock.warming clock.working clock.warm_rounds
            clock.work_rounds clock.fuel object_size w filled refl refl steady clock.warm clock.work
            clock.warm_below clock.work_below
          ∙ ap
              (λ (left : Data).
                scored (hash_str hash_initial_value bytes) (timed_by clock object_size) left)
              (rw freed refl),
    )
