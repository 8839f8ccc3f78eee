-- ===== src/Generator/Init.antt =====
-- src/common/generator.c: `object_init` and the creation of an object, with the size that is
-- tracked for the copy. On the 64-bit platform an `object_t` has 16 bytes and is aligned to 8.
pub mod Generated
pub mod Numbers
pub mod Total
use schemaless_benchmarks.Base.{
  ℕ, zero, suc, ◌+◌, ◌-◌, ◌*◌, ◌/◌, ◌%◌, ◌^◌, Bool, true, false, ◌&&◌, not, List, [], ◌∷◌, bit_and,
  bit_or, ltb, ◌==◌, length, u64, if◌then◌else◌, ◌<<<◌, ℤ, pos, negsuc,
}
use schemaless_benchmarks.Object.{
  Object, Elements, Entries, nil, bool, double, int, uint, str, array, map, no_elements, element,
  no_entries, entry,
}
use schemaless_benchmarks.Random.{Random, random_next, random_seed, random_inverse}
use schemaless_benchmarks.Generator.Outcome.{Outcome, ok, fault, stuck, ◌>>=◌, checked}
use schemaless_benchmarks.Generator.Text.{random_key, random_string}
use schemaless_benchmarks.Generator.Kind.{Kind, Draw, random_type}

-- `sizeof(object_t)` and `__alignof__(object_t)`
abbrev pub sizeof_object : ℕ
sizeof_object = 16

abbrev pub alignment : ℕ
alignment = 8

-- `(size + alignment - 1) & ~(alignment - 1)` on a 64-bit `size_t`.
unfoldable pub object_align : ℕ → ℕ
object_align size = bit_and (u64 (size + alignment - 1)) (2 ^ 64 - 1 - (alignment - 1))

-- The bit pattern of the sum that the code computes in floating point from its six draws.
abbrev pub Reals : Type 0
Reals = ℕ → ℕ → ℕ → ℕ → ℕ → ℕ → ℕ

-- A value with `*total_size` and the generator's state after it.
abbrev pub Sized : Type 0 → Type 0
Sized A = A × ℕ × Random

-- `strcmp(a, b) == 0`
abbrev pub str_equal : List ℕ → List ℕ → Bool
str_equal [] [] = true
str_equal (a ∷ s) (b ∷ t) = a == b && str_equal s t
str_equal _ _ = false

-- The inner loop: whether the key is among those used before.
abbrev pub is_used : List ℕ → List (List ℕ) → Bool
is_used key [] = false
is_used key (k ∷ ks) = if str_equal key k then true else is_used key ks

-- The `do … while (!unique)` loop, cut off after `retries` more keys.
unfoldable pub unused_key : ℕ → List (List ℕ) → Random → Outcome (List ℕ × Random)
unused_key zero used random = stuck
unused_key (suc retries) used random =
    let (key, random₁) = random_key random in
    let again = unused_key retries used random₁ in
    if is_used key used then again else ok (key, random₁)

-- The six draws for a double.
unfoldable pub random_double : Reals → Random → ℕ × Random
random_double real random =
    let (a, random₁) = random_next random in
    let (b, random₂) = random_next random₁ in
    let (c, random₃) = random_next random₂ in
    let (d, random₄) = random_next random₃ in
    let (e, random₅) = random_next random₄ in
    let (f, random₆) = random_next random₅ in
    (real (a % 2048) (b % 1024) (c % 1024) (d % 1024) (e % 1024) (f % 1024), random₆)

-- Two draws for the halves of a 64-bit number: `high << 32`, then `|= low`.
unfoldable pub random_word : ℕ → Random → ℕ × Random
random_word mask random =
    let (high, random₁) = random_next random in
    let (low, random₂) = random_next random₁ in (bit_or (bit_and high mask <<< 32) low, random₂)

-- An unsigned number: a huge one below 2 ^ 63, or mostly a small one.
unfoldable pub random_uint : Random → Outcome (ℕ × Random)
random_uint random = do
  (choice, random₁) ← checked (random_inverse random 10000)
  if ltb 5000 choice
      then ok (random_word 0x7fffffff random₁)
      else checked (random_inverse random₁ 0xfffff)

-- The signed number with a 64-bit pattern.
abbrev pub to_signed : ℕ → ℤ
to_signed u = if ltb u (2 ^ 63) then pos u else negsuc (2 ^ 64 - 1 - u)

abbrev pub negate : ℕ → ℤ
negate zero = pos 0
negate (suc n) = negsuc n

-- A small number with a drawn sign.
unfoldable pub small_int : Random → Outcome (ℤ × Random)
small_int random = do
  (small, random₁) ← checked (random_inverse random 0xfffff)
  let (sign, random₂) = random_next random₁
  ok (if bit_and sign 1 == 0 then pos small else negate small, random₂)

-- A signed number: a huge one of 64 bits, or mostly a small one.
unfoldable pub random_int : Random → Outcome (ℤ × Random)
random_int random = do
  (choice, random₁) ← checked (random_inverse random 10000)
  let (word, random₂) = random_word 0xffffffff random₁
  if ltb 5000 choice then ok (to_signed word, random₂) else small_int random₁

-- The loops over the children. The first argument is `object_init` one level down.
unfoldable pub init_elements :
    (ℕ → Random → Outcome (Sized Object)) → ℕ → ℕ → Random → Outcome (Sized Elements)
init_elements init zero total random = ok (no_elements, total, random)
init_elements init (suc n) total random = do
  (x, total₁, random₁) ← init total random
  (xs, total₂, random₂) ← init_elements init n total₁ random₁
  ok (element x xs, total₂, random₂)

-- `used` are the keys of the entries before.
unfoldable pub init_entries :
    ℕ
    → (ℕ → Random → Outcome (Sized Object))
    → ℕ
    → List (List ℕ)
    → ℕ
    → Random
    → Outcome (Sized Entries)
init_entries retries init zero used total random = ok (no_entries, total, random)
init_entries retries init (suc n) used total random = do
  (key, random₁) ← unused_key retries used random
  (x, total₁, random₂) ← init (u64 (total + object_align (u64 (length key + 1)))) random₁
  (es, total₂, random₃) ← init_entries retries init n (key ∷ used) total₁ random₂
  ok (entry key x es, total₂, random₃)

-- The `switch` over the type that was drawn.
unfoldable pub init_kind :
    Reals
    → ℕ
    → (ℕ → Random → Outcome (Sized Object))
    → Kind
    → ℕ
    → ℕ
    → Random
    → Outcome (Sized Object)
init_kind real retries init Kind.nil n total random = ok (nil, total, random)
init_kind real retries init Kind.bool n total random =
    let (r, random₁) = random_next random in ok (bool (not (bit_and r 1 == 0)), total, random₁)
init_kind real retries init Kind.double n total random =
    let (d, random₁) = random_double real random in ok (double d, total, random₁)
init_kind real retries init Kind.uint n total random = do
  (u, random₁) ← random_uint random
  ok (uint u, total, random₁)
init_kind real retries init Kind.int n total random = do
  (i, random₁) ← random_int random
  ok (int i, total, random₁)
init_kind real retries init Kind.str n total random =
    let (s, random₁) = random_string random n in
    ok (str s, u64 (total + object_align (n + 1)), random₁)
init_kind real retries init Kind.array n total random = do
  (xs, total₁, random₁) ←
      init_elements init n (u64 (total + object_align (n * sizeof_object))) random
  ok (array xs, total₁, random₁)
init_kind real retries init Kind.map n total random = do
  (es, total₁, random₁) ←
      init_entries retries init n [] (u64 (total + object_align (2 * n * sizeof_object))) random
  ok (map es, total₁, random₁)

-- The fuel is for the depth: no container stands at depth 31, so that 32 levels are enough.
unfoldable pub object_init : Reals → ℕ → ℕ → ℕ → ℕ → ℕ → Random → Outcome (Sized Object)
object_init real retries zero size depth total random = fault
object_init real retries (suc fuel) size depth total random = do
  draw ← checked (random_type size depth random)
  init_kind real retries (object_init real retries fuel size (depth + 1)) draw.kind draw.length
      total draw.random

-- The first part of `object_create`: the object, and the size of the block for its copy.
unfoldable pub create_source : Reals → ℕ → ℕ → ℕ → Outcome (Sized Object)
create_source real retries seed size =
    object_init real retries 32 size 0 (object_align sizeof_object) (random_seed seed)
