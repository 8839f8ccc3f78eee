-- ===== src/Benchmark/Go/Sizes.antt =====
-- The arguments of `main`: it succeeds for sizes from 1 to 5 only.
use schemaless_benchmarks.Base.{
  ℕ, ◌≤◌, ◌≡◌, ◌≢◌, refl, Bool, Bool-cases, inl, inr, List, [], ◌∷◌, ltb, ltb→le, if◌then◌else◌,
}
use schemaless_benchmarks.Benchmark.Go.{
  Ending, failed, done, scored, running, Exit, exit_failure, exit_success, no_exit, proceed,
  run_sizes, finish, run_arguments, main,
}

-- All arguments are sizes in the range [1,5].
unfoldable pub InRange : {A : Type 0} → (A → ℕ) → List A → Type 0
InRange atoi [] = Unit {0}
InRange atoi (a ∷ arguments) = (1 ≤ atoi a) × (atoi a ≤ 5) × InRange atoi arguments

abbrev Succeeds : {W : Type 0} → Exit W → Type 0
Succeeds {W} e = (w : W) × (e ≡ exit_success w)

failure-Succeeds : {W : Type 0} (w : W) → ¬ Succeeds (exit_failure w)
failure-Succeeds w (w', e) = absurd cc

proceed-Succeeds :
    {W : Type 0} (e : Ending W) (next : W → Exit W)
    → Succeeds (proceed e next)
    → (w : W) × Succeeds (next w)
unfolding proceed
proceed-Succeeds (failed w) next (w', e) = absurd cc
proceed-Succeeds (done w) next s = (w, s)
proceed-Succeeds (scored hash total w) next s = (w, s)
proceed-Succeeds running next (w', e) = absurd cc

finish-Succeeds : {W : Type 0} (free : W → W) (e : Exit W) → Succeeds (finish free e) → Succeeds e
unfolding finish
finish-Succeeds free (exit_failure w) (w', e) = absurd cc
finish-Succeeds free (exit_success w) s = (w, refl)
finish-Succeeds free no_exit (w', e) = absurd cc

run_sizes-InRange :
    {W A : Type 0} (atoi : A → ℕ) (go : ℕ → W → Ending W) (arguments : List A) (w : W)
    → Succeeds (run_sizes atoi go arguments w)
    → InRange atoi arguments
unfolding run_sizes InRange
run_sizes-InRange atoi go [] w s = tt
run_sizes-InRange atoi go (a ∷ arguments) w s = elim (Bool-cases (ltb (atoi a) 1)) [
  | inl small ↦ absurd (failure-Succeeds w (rw (run_sizes, small) at s))
  | inr large ↦ elim (Bool-cases (ltb 5 (atoi a))) [
    | inl more ↦ absurd (failure-Succeeds w (rw (run_sizes, large, more) at s))
    | inr less ↦
        let (w₁, rest) =
          proceed-Succeeds (go (atoi a) w) (run_sizes atoi go arguments)
            (rw (run_sizes, large, less) at s) in
        (
          ltb→le (atoi a) 1 large,
          ltb→le 5 (atoi a) less,
          run_sizes-InRange atoi go arguments w₁ rest,
        )
  ]
]

run_arguments-InRange :
    {W A : Type 0} (throwaway fragment free : W → W) (atoi : A → ℕ) (go : ℕ → W → Ending W)
    (arguments : List A) (w : W)
    → Succeeds (run_arguments throwaway fragment free atoi go arguments w)
    → (arguments ≢ []) × InRange atoi arguments
unfolding run_arguments
run_arguments-InRange throwaway fragment free atoi go [] w s = absurd (failure-Succeeds w s)
run_arguments-InRange throwaway fragment free atoi go (a ∷ arguments) w s = (
  cc,
  run_sizes-InRange atoi go (a ∷ arguments) (fragment (throwaway w))
      (finish-Succeeds free (run_sizes atoi go (a ∷ arguments) (fragment (throwaway w))) s),
)

-- The arguments without an option at the front.
abbrev pub sizes_of : {A : Type 0} → (A → Bool) → List A → List A
sizes_of is_r [] = []
sizes_of is_r (a ∷ arguments) = if is_r a then arguments else a ∷ arguments

-- If `main` returns EXIT_SUCCESS, then the arguments, without `-r` at their front, are not empty, and all of
-- them are sizes in the range [1,5].
pub main-InRange :
    {W A : Type 0} (is_r : A → Bool) (throwaway fragment free : W → W) (atoi : A → ℕ)
    (go : ℕ → W → Ending W) (arguments : List A) (w w' : W)
    → main is_r throwaway fragment free atoi go arguments w ≡ exit_success w'
    → (sizes_of is_r arguments ≢ []) × InRange atoi (sizes_of is_r arguments)
unfolding main
main-InRange is_r throwaway fragment free atoi go [] w w' e =
    run_arguments-InRange throwaway fragment free atoi go [] w (w', e)
main-InRange is_r throwaway fragment free atoi go (a ∷ arguments) w w' e =
    run_arguments-InRange throwaway fragment free atoi go
      (if is_r a then arguments else a ∷ arguments) w (w', e)
