-- ===== src/Benchmark/Go.antt =====
-- src/common/benchmark.c: `go`, which times a test, and `main`, which calls it for each size. The state of
-- the test and of all else is a `W`. Printing and the row of results.csv are left out.
pub mod Laws
pub mod Sizes
pub mod Steady
mod Tests
use schemaless_benchmarks.Base.{
  ℕ, zero, suc, ◌+◌, ◌-◌, ◌*◌, ◌^◌, Bool, true, false, ◌||◌, Option, none, some, List, [], ◌∷◌, ltb,
  if◌then◌else◌, ◌<<<◌,
}
use schemaless_benchmarks.Hash.{hash_initial_value}

-- The functions that a test implements. `run_test` takes `*hash_out` and gives it back.
pub record Test (W : Type 0) : Type 0 where
  pub setup_test : ℕ → W → Bool × W
  pub is_benchmark : Bool
  pub run_test : ℕ → W → Bool × ℕ × W
  pub teardown_test : W → W

-- How `go` ends: it returns false; it returns true, for a benchmark with the last hash and the number of
-- iterations that were timed; or it has not returned after the rounds that the model allows it.
pub data Ending (W : Type 0) : Type 0 where
  failed : W → Ending W
  done : W → Ending W
  scored : ℕ → ℕ → W → Ending W
  running : Ending W

-- `for (size_t i = 5; i > object_size; --i) iterations <<= 3;`
unfoldable pub shift_iterations : ℕ → ℕ → ℕ
shift_iterations zero iterations = iterations
shift_iterations (suc rounds) iterations = shift_iterations rounds (iterations <<< 3)

-- 32 at first, where the processor is no ARM.
abbrev pub iterations_for : ℕ → ℕ
iterations_for object_size = shift_iterations (5 - object_size) 32

-- What a loop leaves: the last hash, the number of iterations and the state; or the state at a failure.
pub data Loop (W : Type 0) : Type 0 where
  stopped : W → Loop W
  looped : ℕ → ℕ → W → Loop W
  endless : Loop W

-- The inner loop: `hash_result` is set anew before each run. `last` is what it holds if no run is left, and
-- `total` counts the iterations: the code's `int` for it is this number as long as that is below 2 ^ 31.
unfoldable pub run_batch : {W : Type 0} → Test W → ℕ → ℕ → ℕ → ℕ → W → Loop W
run_batch test initial zero last total w = looped last total w
run_batch test initial (suc n) last total w =
    let (ok, hash_result, w') = test.run_test initial w in
    let rest = run_batch test initial n hash_result (total + 1) w' in
    if ok then rest else stopped w'

-- The outer loop. `over k` is whether the time is over after the batch `k`: the clock.
unfoldable pub run_until : {W : Type 0} → Test W → (ℕ → Bool) → ℕ → ℕ → ℕ → ℕ → ℕ → ℕ → W → Loop W
run_until test over initial iterations zero k last total w = endless
run_until test over initial iterations (suc fuel) k last total w =
    elim (run_batch test initial iterations last total w) [
      | stopped w' ↦ stopped w'
      | endless ↦ endless
      | looped hash_result total' w' ↦
          let rest = run_until test over initial iterations fuel (k + 1) hash_result total' w' in
          if over k then looped hash_result total' w' else rest
    ]

-- The timed part, after the warm up.
unfoldable pub time_runs : {W : Type 0} → Test W → (ℕ → Bool) → ℕ → ℕ → ℕ → W → Ending W
time_runs test working fuel iterations last w =
    elim (run_until test working hash_initial_value iterations fuel 0 last 0 w) [
      | stopped w' ↦ failed w'
      | endless ↦ running
      | looped hash_result total w' ↦ scored hash_result total (test.teardown_test w')
    ]

-- The warm up starts each run from a hash of 0, and its iterations are not counted.
unfoldable pub go : {W : Type 0} → Test W → (ℕ → Bool) → (ℕ → Bool) → ℕ → ℕ → W → Ending W
go test warming working fuel object_size w =
    let (ok, w₁) = test.setup_test object_size w in
    if ok
    then (if test.is_benchmark
        then elim (run_until test warming 0 (iterations_for object_size) fuel 0 0 0 w₁) [
          | stopped w₂ ↦ failed w₂
          | endless ↦ running
          | looped hash_result total w₂ ↦
              time_runs test working fuel (iterations_for object_size) hash_result w₂
        ]
        else done (test.teardown_test w₁))
    else failed w₁

-- How `main` ends: with the exit status EXIT_FAILURE or EXIT_SUCCESS.
pub data Exit (W : Type 0) : Type 0 where
  exit_failure : W → Exit W
  exit_success : W → Exit W
  no_exit : Exit W

-- What the loop of `main` does after a call of `go`: it fails, or goes on with the next argument.
unfoldable pub proceed : {W : Type 0} → Ending W → (W → Exit W) → Exit W
proceed (failed w) next = exit_failure w
proceed (done w) next = next w
proceed (scored hash total w) next = next w
proceed running next = no_exit

-- The loop over the arguments, each a size that `atoi` reads. A call of `go` is a parameter.
unfoldable pub run_sizes : {W A : Type 0} → (A → ℕ) → (ℕ → W → Ending W) → List A → W → Exit W
run_sizes atoi go [] w = exit_success w
run_sizes atoi go (a ∷ arguments) w =
    if ltb (atoi a) 1 || ltb 5 (atoi a)
    then exit_failure w
    else proceed (go (atoi a) w) (run_sizes atoi go arguments)

-- `free_fragmented_memory` stands after the loop, and is reached on success only.
unfoldable pub finish : {W : Type 0} → (W → W) → Exit W → Exit W
finish free_fragmented_memory (exit_failure w) = exit_failure w
finish free_fragmented_memory (exit_success w) = exit_success (free_fragmented_memory w)
finish free_fragmented_memory no_exit = no_exit

-- `main`. An argument is an `A`; whether `strcmp` finds it equal to "-r", and what `atoi` reads, are
-- parameters, as is the throwaway object, which draws random numbers. Memory is fragmented before the sizes,
-- and what is left of that is freed after them, on success only. The flag of "-r" is for printing alone.
unfoldable pub run_arguments :
    {W A : Type 0}
    → (W → W)
    → (W → W)
    → (W → W)
    → (A → ℕ)
    → (ℕ → W → Ending W)
    → List A
    → W
    → Exit W
run_arguments throwaway fragment_memory free_fragmented_memory atoi go [] w = exit_failure w
run_arguments throwaway fragment_memory free_fragmented_memory atoi go (a ∷ arguments) w =
    finish free_fragmented_memory
      (run_sizes atoi go (a ∷ arguments) (fragment_memory (throwaway w)))

unfoldable pub main :
    {W A : Type 0}
    → (A → Bool)
    → (W → W)
    → (W → W)
    → (W → W)
    → (A → ℕ)
    → (ℕ → W → Ending W)
    → List A
    → W
    → Exit W
main is_r throwaway fragment_memory free_fragmented_memory atoi go [] w =
    run_arguments throwaway fragment_memory free_fragmented_memory atoi go [] w
main is_r throwaway fragment_memory free_fragmented_memory atoi go (a ∷ arguments) w =
    run_arguments throwaway fragment_memory free_fragmented_memory atoi go
      (if is_r a then arguments else a ∷ arguments) w
