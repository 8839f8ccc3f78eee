-- ===== src/Benchmark/Go/Steady.antt =====
-- `go` on a test whose runs leave its state alone.
use schemaless_benchmarks.Base.{ℕ, zero, suc, ◌+◌, ◌-◌, ◌*◌, ◌<◌, ◌≡◌, refl, arith, Bool, true}
use schemaless_benchmarks.Hash.{hash_initial_value}
use schemaless_benchmarks.Benchmark.Go.{
  Test, scored, looped, run_batch, run_until, time_runs, go, iterations_for,
}
use schemaless_benchmarks.Benchmark.Go.Laws.{Ends, if_true, shift-pos}

module _ {W : Type 0} (test : Test W) (f : ℕ → ℕ) (w : W) where
  -- Each run succeeds in the state, keeps it, and maps the hash by `f`.
  abbrev pub IsSteady : Type 0
  IsSteady = (h : ℕ) → test.run_test h w ≡ (true, f h, w)

  batch-IsSteady :
      (initial n last total : ℕ)
      → IsSteady
      → run_batch test initial (suc n) last total w ≡ looped (f initial) (total + suc n) w
  unfolding run_batch
  batch-IsSteady initial zero last total steady = rw (steady initial) refl
  batch-IsSteady initial (suc n) last total steady =
      let count : total + suc (suc n) ≡ total + 1 + suc n = omega arith in
      rw (steady initial, count) (batch-IsSteady initial n (f initial) (total + 1) steady)

  until-IsSteady :
      (over : ℕ → Bool) (initial iterations fuel m k last total : ℕ)
      → IsSteady
      → 0 < iterations
      → m < fuel
      → Ends over k m
      → run_until test over initial iterations fuel k last total w
        ≡ looped (f initial) (total + suc m * iterations) w
  unfolding run_until
  until-IsSteady over initial zero fuel m k last total steady p q ends = absurd (omega arith)
  until-IsSteady over initial (suc n) zero m k last total steady p q ends = absurd (omega arith)
  until-IsSteady over initial (suc n) (suc fuel) zero k last total steady p q ends =
      let count : total + 1 * suc n ≡ total + suc n = omega arith in
      rw (run_until, batch-IsSteady initial n last total steady, ends, count) refl
  until-IsSteady over initial (suc n) (suc fuel) (suc m) k last total steady p q ends =
      let count : total + suc (suc m) * suc n ≡ total + suc n + suc m * suc n = grind arith in
      rw (run_until, batch-IsSteady initial n last total steady, ends.0, count)
        (until-IsSteady over initial (suc n) fuel m (k + 1) (f initial) (total + suc n) steady p
          (omega arith) ends.1)

-- A steady benchmark is scored with the hash that `f` gives for the initial value, and its state after the
-- setup is torn down.
pub go-IsSteady :
    {W : Type 0} (test : Test W) (f : ℕ → ℕ) (warming working : ℕ → Bool)
    (m₁ m₂ fuel object_size : ℕ) (w w₁ : W)
    → test.setup_test object_size w ≡ (true, w₁)
    → test.is_benchmark ≡ true
    → IsSteady test f w₁
    → Ends warming 0 m₁
    → Ends working 0 m₂
    → m₁ < fuel
    → m₂ < fuel
    → go test warming working fuel object_size w
      ≡ scored (f hash_initial_value) (suc m₂ * iterations_for object_size) (test.teardown_test w₁)
unfolding go time_runs
go-IsSteady test f warming working m₁ m₂ fuel object_size w w₁ set_up timed steady warm work p q =
    let some_runs = shift-pos (5 - object_size) 32 (omega arith) in
    let e₁ =
      until-IsSteady test f w₁ warming 0 (iterations_for object_size) fuel m₁ 0 0 0 steady some_runs
        p warm in
    let e₂ =
      until-IsSteady test f w₁ working hash_initial_value (iterations_for object_size) fuel m₂ 0
        (f 0) 0 steady some_runs q work in
    let count : (k : ℕ) → 0 + k ≡ k = λ k. omega arith in
    rw (go, set_up) (if_true test.is_benchmark _ _ _ timed (rw (e₁, time_runs, e₂, count) refl))
