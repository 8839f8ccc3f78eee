-- ===== src/Benchmark/Fragment/Laws.antt =====
-- The shuffle loses no block, and every block is freed once.
use mathlib.Core.List.{Perm}
use mathlib.Core.List.Perm
use native.Mathlib.Nat.{mod-lt, one-le-pow, pow-le-pow_right}
use schemaless_benchmarks.Base.{
  ℕ, zero, suc, ◌+◌, ◌/◌, ◌%◌, ◌^◌, ◌≤◌, ◌<◌, ◌≡◌, refl, ap, ◌∙◌, arith, List, [], ◌∷◌, ◌++◌,
  length, take, drop,
}
use schemaless_benchmarks.Random.{Random, random_next, random_seed}
use schemaless_benchmarks.Benchmark.Fragment.{
  memory_count, slot, assign, exchange, blob_size, allocate, shuffle, fragment_memory,
  free_fragmented_memory,
}

-- An assignment puts the new pointer in the place of the old one.
assign_perm :
    (memory : List ℕ) (i q : ℕ)
    → i < length memory
    → Perm (slot i memory ∷ assign i q memory) (q ∷ memory)
assign_perm (p ∷ memory) (suc i) q h =
    Perm.trans (Perm.swap p (slot i memory) (assign i q memory))
      (Perm.trans (Perm.cons p (assign_perm memory i q (omega arith))) (Perm.swap q p memory))
assign_perm (p ∷ memory) zero q h = Perm.swap q p memory
assign_perm [] i q h = absurd (omega arith)

-- The second place of an exchange still holds what it held, or holds it again.
slot_kept : (memory : List ℕ) (i j : ℕ) → slot j (assign i (slot j memory) memory) ≡ slot j memory
slot_kept [] i j = refl
slot_kept (p ∷ memory) zero zero = refl
slot_kept (p ∷ memory) zero (suc j) = refl
slot_kept (p ∷ memory) (suc i) zero = refl
slot_kept (p ∷ memory) (suc i) (suc j) = slot_kept memory i j

length-assign : (memory : List ℕ) (i q : ℕ) → length (assign i q memory) ≡ length memory
length-assign [] i q = refl
length-assign (p ∷ memory) zero q = refl
length-assign (p ∷ memory) (suc i) q = ap suc (length-assign memory i q)

exchange_perm :
    (memory : List ℕ) (i j : ℕ)
    → i < length memory
    → j < length memory
    → Perm (exchange i j memory) memory
unfolding exchange
exchange_perm memory i j h k =
    let once = assign i (slot j memory) memory in
    let inside : j < length once = omega (arith, length-assign memory i (slot j memory)) in
    let back = assign_perm once j (slot i memory) inside in
    Perm.cons_inv
      (rw (slot_kept memory i j) at (Perm.trans back (assign_perm memory i (slot j memory) h)))

length-exchange : (memory : List ℕ) (i j : ℕ) → length (exchange i j memory) ≡ length memory
unfolding exchange
length-exchange memory i j =
    length-assign (assign i (slot j memory) memory) j (slot i memory)
    ∙ length-assign memory i (slot j memory)

shuffle_perm :
    (todo i : ℕ) (random : Random) (memory : List ℕ)
    → length memory ≡ i + todo
    → Perm (shuffle todo i random memory) memory
unfolding shuffle
shuffle_perm zero i random memory h = Perm.refl memory
shuffle_perm (suc todo) i random memory h =
    let r = (random_next random).0 in
    let below : r % suc todo < suc todo = mod-lt r (omega arith) in
    Perm.trans
      (shuffle_perm todo (i + 1) (random_next random).1 (exchange i (r % suc todo + i) memory)
        (omega (arith, length-exchange memory i (r % suc todo + i))))
      (exchange_perm memory i (r % suc todo + i) (omega arith) (omega arith))

length-allocate :
    (malloc : ℕ → ℕ → ℕ) (todo i : ℕ) (random : Random)
    → length (allocate malloc todo i random).0 ≡ todo
unfolding allocate
length-allocate malloc zero i random = refl
length-allocate malloc (suc todo) i random =
    ap suc (length-allocate malloc todo (i + 1) (blob_size random).1)

take-append-drop : (n : ℕ) (xs : List ℕ) → take n xs ++ drop n xs ≡ xs
take-append-drop zero xs = refl
take-append-drop (suc n) [] = refl
take-append-drop (suc n) (x ∷ xs) = ap (λ ys. x ∷ ys) (take-append-drop n xs)

-- The blocks that `fragment_memory` frees, and those that `free_fragmented_memory` frees of what it left,
-- are together the blocks that it allocated, each as often as it was allocated.
pub fragment_memory_balanced :
    (malloc : ℕ → ℕ → ℕ)
    → Perm
        ((fragment_memory malloc).freed ++ free_fragmented_memory (fragment_memory malloc).memory)
        (fragment_memory malloc).allocated
unfolding fragment_memory free_fragmented_memory
fragment_memory_balanced malloc =
    let blocks = allocate malloc memory_count 0 (random_seed 34986) in
    rw (take-append-drop (memory_count / 2) (shuffle memory_count 0 blocks.1 blocks.0)) (
      shuffle_perm memory_count 0 blocks.1 blocks.0
        (length-allocate malloc memory_count 0 (random_seed 34986)))

-- From any state, a blob has 1 to 2055 bytes.
pub blob_size_bounds :
    (random : Random) → (1 ≤ (blob_size random).0) × ((blob_size random).0 ≤ 2055)
unfolding blob_size
blob_size_bounds random =
    let k = (random_next random).0 % 12 in
    let power : 2 ^ k ≤ 2 ^ 11 = pow-le-pow_right (omega arith) {i = k} {j = 11} (omega arith) in
    (omega (arith, one-le-pow k 2 (omega arith)), omega (arith, power))
