-- ===== src/Benchmark/Go/Tests.antt =====
-- A test whose state counts its runs, on a clock that ends at once or after one batch more.
use schemaless_benchmarks.Base.{
  ℕ, suc, ◌+◌, ◌*◌, ◌<◌, ◌^◌, ◌≡◌, ◌≢◌, refl, arith, Bool, true, [], ◌∷◌, ◌==◌, ltb,
}
use schemaless_benchmarks.Hash.{hash_initial_value}
use schemaless_benchmarks.Benchmark.Go.{
  Test, Ending, scored, exit_success, iterations_for, go, main, shift_iterations, run_arguments,
  finish, run_sizes, proceed,
}
use schemaless_benchmarks.Benchmark.Go.Laws.{go-Reports}
use schemaless_benchmarks.Benchmark.Go.Sizes.{InRange, sizes_of, main-InRange}

abbrev counting : Test ℕ
counting = record {
  setup_test = λ size w. (true, w);
  is_benchmark = true;
  run_test = λ h w. (true, h + 7, w + 1);
  teardown_test = λ w. w;
}

abbrev after_one : ℕ → Bool
after_one k = ltb 0 k

iterations_for_largest : iterations_for 5 ≡ 32
unfolding shift_iterations
iterations_for_largest = refl

iterations_for_smallest : iterations_for 1 ≡ 131072
unfolding shift_iterations
iterations_for_smallest = refl

few : suc 1 * iterations_for 5 < 2 ^ 31
unfolding shift_iterations
few = omega arith

go-Reports_example :
    (w' : ℕ) × (go counting after_one after_one 2 5 0
      ≡ scored (hash_initial_value + 7) (suc 1 * iterations_for 5) w')
go-Reports_example =
    go-Reports counting (λ h. h + 7) after_one after_one 1 1 2 5 0 refl refl (λ h w. (refl, refl))
      (refl, refl) (refl, refl) (omega arith) (omega arith) few

-- 9 stands for "-r".
abbrev is_nine : ℕ → Bool
is_nine a = a == 9

abbrev atoi : ℕ → ℕ
atoi a = a

abbrev instant : ℕ → ℕ → Ending ℕ
instant size w = scored size 1 (w + 1)

ran :
    main is_nine (λ w. w + 1) (λ w. w + 10) (λ w. w) atoi instant (9 ∷ 1 ∷ 5 ∷ []) 0
    ≡ exit_success 13
unfolding main run_arguments finish run_sizes proceed
ran = refl

main-InRange_example :
    (sizes_of is_nine (9 ∷ 1 ∷ 5 ∷ []) ≢ []) × InRange atoi (sizes_of is_nine (9 ∷ 1 ∷ 5 ∷ []))
main-InRange_example =
    main-InRange is_nine (λ w. w + 1) (λ w. w + 10) (λ w. w) atoi instant (9 ∷ 1 ∷ 5 ∷ []) 0 13 ran
