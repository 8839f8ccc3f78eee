-- ===== src/Benchmark/Fragment.antt =====
-- src/common/benchmark.c: `fragment_memory` and `free_fragmented_memory`. A pointer is a number, and the
-- array `memory` is a list of them.
pub mod Laws
mod Tests
use schemaless_benchmarks.Base.{ℕ, zero, suc, ◌+◌, ◌/◌, ◌%◌, ◌^◌, List, [], ◌∷◌, take, drop, ◌<<<◌}
use schemaless_benchmarks.Random.{Random, random_next, random_seed}

abbrev pub memory_count : ℕ
memory_count = 65536

-- `memory[i]`, and an assignment to it.
abbrev pub slot : ℕ → List ℕ → ℕ
slot i [] = 0
slot zero (p ∷ memory) = p
slot (suc i) (p ∷ memory) = slot i memory

abbrev pub assign : ℕ → ℕ → List ℕ → List ℕ
assign i q [] = []
assign zero q (p ∷ memory) = q ∷ memory
assign (suc i) q (p ∷ memory) = p ∷ assign i q memory

-- `l = memory[i]; memory[i] = memory[j]; memory[j] = l;`
unfoldable pub exchange : ℕ → ℕ → List ℕ → List ℕ
exchange i j memory = assign j (slot i memory) (assign i (slot j memory) memory)

-- The bytes of a blob, and the state after the two draws for it. C does not fix their order: the one of
-- the exponent is taken to be the first.
unfoldable pub blob_size : Random → ℕ × Random
blob_size random =
    let (r, random₁) = random_next random in
    let (s, random₂) = random_next random₁ in (1 <<< (r % 12) + s % 8, random₂)

-- The first loop: `malloc` gives the `i`-th block, of the size that it is asked for. `todo` blocks are left.
unfoldable pub allocate : (ℕ → ℕ → ℕ) → ℕ → ℕ → Random → List ℕ × Random
allocate malloc zero i random = ([], random)
allocate malloc (suc todo) i random =
    let (bytes, random₁) = blob_size random in
    let (rest, random₂) = allocate malloc todo (i + 1) random₁ in (malloc i bytes ∷ rest, random₂)

-- The second loop: `todo` is MEMORY_COUNT - i.
unfoldable pub shuffle : ℕ → ℕ → Random → List ℕ → List ℕ
shuffle zero i random memory = memory
shuffle (suc todo) i random memory =
    let (r, random₁) = random_next random in
    shuffle todo (i + 1) random₁ (exchange i (r % suc todo + i) memory)

-- What the two functions do with blocks: those that `fragment_memory` allocates, those that it frees, and
-- what it leaves in `memory`.
pub record Fragmented : Type 0 where
  pub allocated : List ℕ
  pub freed : List ℕ
  pub memory : List ℕ

unfoldable pub fragment_memory : (ℕ → ℕ → ℕ) → Fragmented
fragment_memory malloc =
    let (blocks, random) = allocate malloc memory_count 0 (random_seed 34986) in
    let memory = shuffle memory_count 0 random blocks in
    record { allocated = blocks; freed = take (memory_count / 2) memory; memory = memory }

-- The blocks that are freed in the end.
unfoldable pub free_fragmented_memory : List ℕ → List ℕ
free_fragmented_memory memory = drop (memory_count / 2) memory
