-- ===== src/Benchmark/Go/Laws.antt =====
-- `go` ends as soon as the clock lets it, and reports the hash of its last run.
use schemaless_benchmarks.Base.{
  ℕ, zero, suc, ◌+◌, ◌-◌, ◌*◌, ◌<◌, ◌^◌, ◌≡◌, refl, arith, Bool, true, false, if◌then◌else◌, ◌<<<◌,
}
use schemaless_benchmarks.Hash.{hash_initial_value}
use schemaless_benchmarks.Benchmark.Go.{
  Test, scored, shift_iterations, iterations_for, looped, run_batch, run_until, time_runs, go,
}

-- The time is over after the batch `k + m`, and not before.
abbrev pub Ends : (ℕ → Bool) → ℕ → ℕ → Type 0
Ends over k zero = over k ≡ true
Ends over k (suc m) = (over k ≡ false) × Ends over (k + 1) m

-- Each run succeeds, and maps the hash by `f`.
abbrev pub Reports : {W : Type 0} → Test W → (ℕ → ℕ) → Type 0
Reports {W} test f =
    (h : ℕ) (w : W) → ((test.run_test h w).0 ≡ true) × ((test.run_test h w).1 ≡ f h)

pub shift-pos : (rounds n : ℕ) → 0 < n → 0 < shift_iterations rounds n
unfolding shift_iterations
shift-pos zero n p = p
shift-pos (suc rounds) n p = shift-pos rounds (n <<< 3) (omega arith)

module _ {W : Type 0} (test : Test W) where
  batch-Reports :
      (f : ℕ → ℕ) (initial n last total : ℕ) (w : W)
      → Reports test f
      → (w' : W) × (run_batch test initial (suc n) last total w
          ≡ looped (f initial) (total + suc n) w')
  unfolding run_batch
  batch-Reports f initial zero last total w reports =
      let (ok, hashed) = reports initial w in ((test.run_test initial w).2, rw (ok, hashed) refl)
  batch-Reports f initial (suc n) last total w reports =
      let (ok, hashed) = reports initial w in
      let (w', e) =
        batch-Reports f initial n (test.run_test initial w).1 (total + 1)
          (test.run_test initial w).2 reports in
      let count : total + suc (suc n) ≡ total + 1 + suc n = omega arith in (w', rw (ok, count) e)

  until-Reports :
      (f : ℕ → ℕ) (over : ℕ → Bool) (initial iterations fuel m k last total : ℕ) (w : W)
      → Reports test f
      → 0 < iterations
      → m < fuel
      → Ends over k m
      → (w' : W) × (run_until test over initial iterations fuel k last total w
          ≡ looped (f initial) (total + suc m * iterations) w')
  unfolding run_until
  until-Reports f over initial zero fuel m k last total w reports p q ends = absurd (omega arith)
  until-Reports f over initial (suc n) zero m k last total w reports p q ends = absurd (omega arith)
  until-Reports f over initial (suc n) (suc fuel) zero k last total w reports p q ends =
      let (w', e) = batch-Reports f initial n last total w reports in
      let count : total + 1 * suc n ≡ total + suc n = omega arith in
      (w', rw (run_until, e, ends, count) refl)
  until-Reports f over initial (suc n) (suc fuel) (suc m) k last total w reports p q ends =
      let (w₁, e) = batch-Reports f initial n last total w reports in
      let (w', rest) =
        until-Reports f over initial (suc n) fuel m (k + 1) (f initial) (total + suc n) w₁ reports p
          (omega arith) ends.1 in
      let count : total + suc (suc m) * suc n ≡ total + suc n + suc m * suc n = grind arith in
      (w', rw (run_until, e, ends.0, count) rest)

pub if_true {ℓ} : {A : Type ℓ} (b : Bool) (x y z : A) → b ≡ true → x ≡ z → (if b then x else y) ≡ z
if_true b x y z e p = rw e p

-- If the setup of a benchmark succeeds, each run succeeds and maps the hash by `f`, and the clock ends
-- the warm up after `m₁` batches more than one and the timed part after `m₂`, then `go` returns true. It
-- reports the hash that `f` gives for the initial value, and as many iterations as `m₂ + 1` batches have. These are
-- fewer than 2 ^ 31, since `total_iterations` is an int.
pub go-Reports :
    {W : Type 0} (test : Test W) (f : ℕ → ℕ) (warming working : ℕ → Bool)
    (m₁ m₂ fuel object_size : ℕ) (w : W)
    → (test.setup_test object_size w).0 ≡ true
    → test.is_benchmark ≡ true
    → Reports test f
    → Ends warming 0 m₁
    → Ends working 0 m₂
    → m₁ < fuel
    → m₂ < fuel
    → suc m₂ * iterations_for object_size < 2 ^ 31
    → (w' : W) × (go test warming working fuel object_size w
        ≡ scored (f hash_initial_value) (suc m₂ * iterations_for object_size) w')
unfolding go time_runs
go-Reports test f warming working m₁ m₂ fuel object_size w set_up timed reports warm work p q
      countable =
    let some_runs = shift-pos (5 - object_size) 32 (omega arith) in
    let w₁ = (test.setup_test object_size w).1 in
    let (w₂, e₁) =
      until-Reports test f warming 0 (iterations_for object_size) fuel m₁ 0 0 0 w₁ reports some_runs
        p warm in
    let (w₃, e₂) =
      until-Reports test f working hash_initial_value (iterations_for object_size) fuel m₂ 0 (f 0) 0
        w₂ reports some_runs q work in
    let count : (k : ℕ) → 0 + k ≡ k = λ k. omega arith in
    (
      test.teardown_test w₃,
      rw (go, set_up) (if_true test.is_benchmark _ _ _ timed (rw (e₁, time_runs, e₂, count) refl)),
    )
