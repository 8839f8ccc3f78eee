-- ===== src/Benchmark/Fragment/Tests.antt =====
-- The blocks with the numbers of their calls for pointers.
use mathlib.Core.List.{Perm}
use schemaless_benchmarks.Base.{ℕ, ◌≡◌, refl, [], ◌∷◌, ◌++◌}
use schemaless_benchmarks.Benchmark.Fragment.{exchange, fragment_memory, free_fragmented_memory}
use schemaless_benchmarks.Benchmark.Fragment.Laws.{fragment_memory_balanced}

abbrev numbered : ℕ → ℕ → ℕ
numbered i bytes = i

exchanged : exchange 0 2 (7 ∷ 8 ∷ 9 ∷ []) ≡ 9 ∷ 8 ∷ 7 ∷ []
unfolding exchange
exchanged = refl

fragment_memory_balanced_example :
    Perm
      ((fragment_memory numbered).freed ++ free_fragmented_memory (fragment_memory numbered).memory)
      (fragment_memory numbered).allocated
fragment_memory_balanced_example = fragment_memory_balanced numbered
