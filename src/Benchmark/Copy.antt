-- ===== src/Benchmark/Copy.antt =====
-- The null-terminated copy of the data, where the block for it can be allocated.
use schemaless_benchmarks.Base.{
  arith, ◌-◌, ◌+◌, ◌≡◌, refl, true, some, List, [], ◌∷◌, ◌++◌, length, ℕ,
}
use schemaless_benchmarks.Benchmark.{
  Malloc, benchmark_in_situ_copy, Held, copied, benchmark_in_situ_free, made, destroyed,
}

pub benchmark_in_situ_copy-some :
    (malloc : Malloc) (s : List ℕ)
    → malloc (length s + 1) ≡ true
    → benchmark_in_situ_copy malloc s ≡ some (s ++ 0 ∷ [])
unfolding benchmark_in_situ_copy
benchmark_in_situ_copy-some malloc s given = rw given refl

pub copy_freed : (held : Held) → benchmark_in_situ_free (copied held) ≡ held
unfolding benchmark_in_situ_free
copy_freed held = let same : held.copies + 1 - 1 ≡ held.copies = omega arith in rw same refl

pub value_freed : (held : Held) → destroyed (made held) ≡ held
unfolding destroyed
value_freed held = let same : held.values + 1 - 1 ≡ held.values = omega arith in rw same refl
