-- ===== src/Generator/Pool/Layout.antt =====
-- The copy of an object stays inside the block that was allocated for it.
use schemaless_benchmarks.Base.{
  ℕ, ◌+◌, ◌-◌, ◌*◌, ◌/◌, ◌%◌, ◌^◌, ◌≤◌, ◌<◌, ◌≡◌, refl, arith, List, [], ◌∷◌, ◌++◌, length, u64,
}
use native.Mathlib.Nat.{add_assoc}
use schemaless_benchmarks.Object.{
  Object, Elements, Entries, nil, bool, double, int, uint, str, array, map, no_elements, element,
  no_entries, entry, count_elements, count_entries,
}
use schemaless_benchmarks.Generator.Init.{sizeof_object, alignment, object_align}
use schemaless_benchmarks.Generator.Init.Generated.{
  IsGenerated, AreGenerated, AreGeneratedEntries, footprint, footprint_elements, footprint_entries,
}
use schemaless_benchmarks.Base.Bits.{bit_and_step, bit_and_ones}
use schemaless_benchmarks.Generator.Pool.{
  Block, Copy, copy_str, object_copy, copy_elements, copy_entries,
}

-- `object_align` rounds up to a multiple of the alignment.
pub object_align_lem : (size : ℕ) → size < 2 ^ 32 → object_align size ≡ (size + 7) / 8 * 8
unfolding object_align
object_align_lem size h =
    let a = u64 (size + 8 - 1) in
    omega (
      arith,
      bit_and_step a (2 ^ 64 - 8),
      bit_and_step (a / 2) (2 ^ 63 - 4),
      bit_and_step (a / 2 / 2) (2 ^ 62 - 2),
      bit_and_ones 61 (a / 2 / 2 / 2) (omega arith),
    )

-- The blocks are aligned and stand one after the other, without overlap, from `low` up to `high`.
abbrev pub Separate : ℕ → List Block → ℕ → Type 0
Separate low [] high = low ≤ high
Separate low (b ∷ bs) high =
    (low ≤ b.address) × (b.address % alignment ≡ 0) × Separate (b.address + b.size) bs high

pub Separate-append :
    (low mid high : ℕ) (bs cs : List Block)
    → Separate low bs mid
    → Separate mid cs high
    → Separate low (bs ++ cs) high
Separate-append low mid high [] [] h k = omega arith
Separate-append low mid high [] (c ∷ cs) h k = (omega (arith, k.0), k.1, k.2)
Separate-append low mid high (b ∷ bs) cs h k =
    (h.0, h.1, Separate-append (b.address + b.size) mid high bs cs h.2 k)

-- A copy that starts at an aligned address.
pub record IsLaid (pool size : ℕ) (copy : Copy) : Type 0 where
  pub ends : copy.1 ≡ pool + size
  pub separate : Separate pool copy.0 copy.1
  pub aligned : copy.1 % alignment ≡ 0

str-IsLaid :
    (s : List ℕ) (pool : ℕ)
    → length s < 2 ^ 31
    → pool % alignment ≡ 0
    → IsLaid pool (object_align (length s + 1)) (copy_str s pool)
str-IsLaid s pool h p = record {
  ends = refl;
  separate = omega (arith, object_align_lem (length s + 1) (omega arith));
  aligned = omega (arith, object_align_lem (length s + 1) (omega arith));
}

-- A block of `n` bytes before the copies of what it holds.
block-IsLaid :
    (n size pool : ℕ) (rest : Copy)
    → n < 2 ^ 32
    → pool % alignment ≡ 0
    → (((pool + object_align n) % alignment ≡ 0) → IsLaid (pool + object_align n) size rest)
    → IsLaid pool (object_align n + size) (record { address = pool; size = n } ∷ rest.0, rest.1)
block-IsLaid n size pool rest h p k =
    let inner = k (omega (arith, object_align_lem n h)) in
    record {
      ends = omega (arith, inner.ends);
      separate = (
        omega arith,
        p,
        Separate-append (pool + n) (pool + object_align n) rest.1 [] rest.0
            (omega (arith, object_align_lem n h)) inner.separate,
      );
      aligned = inner.aligned;
    }

append-IsLaid :
    (size size' pool : ℕ) (first : Copy) (rest : Copy)
    → IsLaid pool size first
    → IsLaid first.1 size' rest
    → IsLaid pool (size + size') (first.0 ++ rest.0, rest.1)
append-IsLaid size size' pool first rest h k = record {
  ends = omega (arith, h.ends, k.ends);
  separate = Separate-append pool first.1 rest.1 first.0 rest.0 h.separate k.separate;
  aligned = k.aligned;
}

empty-IsLaid : (pool : ℕ) → pool % alignment ≡ 0 → IsLaid pool 0 ([], pool)
empty-IsLaid pool p = record { ends = omega arith; separate = omega arith; aligned = p }

mutual
  unfolding object_copy footprint IsGenerated

  copy-IsLaid :
      (o : Object) (pool : ℕ)
      → IsGenerated o
      → pool % alignment ≡ 0
      → IsLaid pool (footprint o) (object_copy o pool)
  copy-IsLaid nil pool g p = empty-IsLaid pool p
  copy-IsLaid (bool b) pool g p = empty-IsLaid pool p
  copy-IsLaid (double d) pool g p = empty-IsLaid pool p
  copy-IsLaid (int i) pool g p = empty-IsLaid pool p
  copy-IsLaid (uint u) pool g p = empty-IsLaid pool p
  copy-IsLaid (str s) pool g p = str-IsLaid s pool (omega arith) p
  copy-IsLaid (array xs) pool g p =
      let swapped : count_elements xs * sizeof_object ≡ sizeof_object * count_elements xs =
        omega arith in
      rw swapped (
        block-IsLaid (sizeof_object * count_elements xs) (footprint_elements xs) pool _
          (omega (arith, g.0)) p (λ q. elements-IsLaid xs _ g.1 q))
  copy-IsLaid (map es) pool g p =
      let swapped : 2 * count_entries es * sizeof_object ≡ sizeof_object * count_entries es * 2 =
        omega arith in
      rw swapped (
        block-IsLaid (sizeof_object * count_entries es * 2) (footprint_entries es) pool _
          (omega (arith, g.0)) p (λ q. entries-IsLaid [] es _ g.1 q))

  elements-IsLaid :
      (xs : Elements) (pool : ℕ)
      → AreGenerated xs
      → pool % alignment ≡ 0
      → IsLaid pool (footprint_elements xs) (copy_elements xs pool)
  elements-IsLaid no_elements pool g p = empty-IsLaid pool p
  elements-IsLaid (element x xs) pool g p =
      let first = copy-IsLaid x pool g.0 p in
      append-IsLaid (footprint x) (footprint_elements xs) pool (object_copy x pool) _ first
        (elements-IsLaid xs (object_copy x pool).1 g.1 first.aligned)

  entries-IsLaid :
      (used : List (List ℕ)) (es : Entries) (pool : ℕ)
      → AreGeneratedEntries used es
      → pool % alignment ≡ 0
      → IsLaid pool (footprint_entries es) (copy_entries es pool)
  entries-IsLaid used no_entries pool g p = empty-IsLaid pool p
  entries-IsLaid used (entry k x es) pool g p =
      let key = str-IsLaid k pool (omega (arith, g.0)) p in
      let value = copy-IsLaid x (copy_str k pool).1 g.2 key.aligned in
      let rest =
        entries-IsLaid (k ∷ used) es (object_copy x (copy_str k pool).1).1 g.3 value.aligned in
      rw (add_assoc (object_align (length k + 1)) (footprint x) (footprint_entries es)) (
        append-IsLaid (object_align (length k + 1)) (footprint x + footprint_entries es) pool
          (copy_str k pool) _ key
          (append-IsLaid (footprint x) (footprint_entries es) _ (object_copy x (copy_str k pool).1)
            _ value rest))

-- An object of the generator, copied to an aligned address, takes exactly its footprint: the blocks
-- that `object_copy` writes are aligned, do not overlap, and lie between the pool's start and the
-- address that is returned.
pub object_copy-IsLaid :
    (o : Object) (pool : ℕ)
    → IsGenerated o
    → pool % alignment ≡ 0
    → IsLaid pool (footprint o) (object_copy o pool)
object_copy-IsLaid o pool g p = copy-IsLaid o pool g p
