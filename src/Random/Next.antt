-- ===== src/Random/Next.antt =====
-- `random_next` and `random_seed`: the states stay words, and no step loses information.
use schemaless_benchmarks.Base.{
  ℕ, ◌+◌, ◌-◌, ◌*◌, ◌/◌, ◌%◌, ◌^◌, ◌≤◌, ◌<◌, ◌≡◌, ◌≢◌, refl, ap, ◌∙◌, arith, ◌>>>◌, ◌⊎◌, inl, inr,
  bit_and, bit_or,
}
use schemaless_benchmarks.Base.Bits.{
  le-bit_or, bit_or-lt, bit_and-le, bit_or_step, bit_and_step, bit_or_shift, bit_and_shift,
}
use schemaless_benchmarks.Random.{Random, multiplier, random_next, random_seed}

-- Both members of the state are 32-bit words.
pub record IsState (random : Random) : Type 0 where
  pub v_word : random.v < 2 ^ 32
  pub c_word : random.c < 2 ^ 32

-- In a state of a multiply-with-carry generator the carry is below the multiplier.
abbrev pub IsReduced : Random → Type 0
IsReduced random = random.c < multiplier

pub product-lt : (random : Random) → IsState random → multiplier * random.v + random.c < 2 ^ 64
product-lt random h = omega arith

abbrev pub total : Random → ℕ
total random = multiplier * random.v + random.c

next-v :
    (random : Random)
    → IsState random
    → (random_next random).1.v ≡ (2 ^ 33 - 2 - total random % 2 ^ 32) % 2 ^ 32
unfolding random_next
next-v random h = omega arith

next-c : (random : Random) → IsState random → (random_next random).1.c ≡ total random / 2 ^ 32
unfolding random_next
next-c random h = omega arith

-- From any state, a step's two 32-bit products and sums fit 64 bits, its result is the new `v`, and
-- it leads to a state of 32-bit words whose carry is at most the multiplier.
pub random_next-IsState :
    (random : Random)
    → IsState random
    → (total random < 2 ^ 64)
      × ((random_next random).0 ≡ (random_next random).1.v)
      × IsState (random_next random).1
      × ((random_next random).1.c ≤ multiplier)
unfolding random_next
random_next-IsState random h = (omega arith, refl, omega arith, omega arith)

total-injective :
    (a b : Random) → IsReduced a → IsReduced b → total a ≡ total b → (a.v ≡ b.v) × (a.c ≡ b.c)
total-injective a b p q e = omega arith

-- Two states of 32-bit words whose carries are below the multiplier and that have the same successor
-- are the same state.
pub random_next-injective :
    (a b : Random)
    → IsState a
    → IsState b
    → IsReduced a
    → IsReduced b
    → (random_next a).1 ≡ (random_next b).1
    → a ≡ b
random_next-injective a b ha hb p q e =
    let same_v : (2 ^ 33 - 2 - total a % 2 ^ 32) % 2 ^ 32
        ≡ (2 ^ 33 - 2 - total b % 2 ^ 32) % 2 ^ 32 =
      omega (arith, next-v a ha, next-v b hb, ap (λ (r : Random). r.v) e) in
    let same_c : total a / 2 ^ 32 ≡ total b / 2 ^ 32 =
      omega (arith, next-c a ha, next-c b hb, ap (λ (r : Random). r.c) e) in
    let same : total a ≡ total b = omega arith in
    let fields = total-injective a b p q same in λ i. record { v = fields.0 i; c = fields.1 i }

abbrev v_bits : ℕ → ℕ
v_bits val = bit_and val 0xfffffffe

abbrev c_bits : ℕ → ℕ
c_bits val = bit_and (val >>> 32) 0xfffeffff

v_bits-lt : (val : ℕ) → v_bits val < 2 ^ 32
v_bits-lt val = omega (arith, bit_and-le 32 val 0xfffffffe (omega arith))

c_bits-lt : (val : ℕ) → c_bits val < 2 ^ 32
c_bits-lt val = omega (arith, bit_and-le 32 (val >>> 32) 0xfffeffff (omega arith))

seed-v : (val : ℕ) → (random_seed val).v ≡ bit_or (v_bits val) 0x0000100
unfolding random_seed
seed-v val = omega (arith, bit_or-lt 32 (v_bits val) 0x0000100 (v_bits-lt val) (omega arith))

seed-c : (val : ℕ) → (random_seed val).c ≡ bit_or (c_bits val) 0x0100000
unfolding random_seed
seed-c val = omega (arith, bit_or-lt 32 (c_bits val) 0x0100000 (c_bits-lt val) (omega arith))

-- Bit 16 of the carry is clear.
seed-c_bit : (val : ℕ) → (random_seed val).c / 2 ^ 16 % 2 ≡ 0
seed-c_bit val =
    rw
      (seed-c val, bit_or_shift 16 (c_bits val) 0x0100000, bit_and_shift 16 (val >>> 32) 0xfffeffff)
      (omega (
        arith,
        bit_or_step (bit_and (val >>> 32 / 2 ^ 16) 65534) 16,
        bit_and_step (val >>> 32 / 2 ^ 16) 65534,
      ))

-- Seeding gives a state of 32-bit words: `v` is not 0, and `c` is neither 0 nor UINT_MAX - 1.
pub random_seed-IsState :
    (val : ℕ)
    → IsState (random_seed val)
      × ((random_seed val).v ≢ 0)
      × ((random_seed val).c ≢ 0)
      × ((random_seed val).c ≢ 0xfffffffe)
random_seed-IsState val = (
  record {
    v_word =
        omega (arith, seed-v val, bit_or-lt 32 (v_bits val) 0x100 (v_bits-lt val) (omega arith));
    c_word =
        omega (arith, seed-c val, bit_or-lt 32 (c_bits val) 0x100000 (c_bits-lt val) (omega arith));
  },
  omega (arith, seed-v val, le-bit_or 32 (v_bits val) 0x100 (v_bits-lt val) (omega arith)),
  omega (arith, seed-c val, le-bit_or 32 (c_bits val) 0x100000 (c_bits-lt val) (omega arith)),
  omega (arith, seed-c_bit val),
)

-- Seeds whose low 32 bits are all set, but for the lowest and bit 8, which may be clear,
-- are given the `v` that the comment in `random_seed` excludes, UINT_MAX - 1.
pub random_seed_excluded :
    (val : ℕ)
    → bit_and val 0xfffffffe ≡ 0xfffffffe ⊎ (bit_and val 0xfffffffe ≡ 0xfffffefe)
    → (random_seed val).v ≡ 0xfffffffe
random_seed_excluded val (inl e) = seed-v val ∙ ap (λ b. bit_or b 0x100) e
random_seed_excluded val (inr e) = seed-v val ∙ ap (λ b. bit_or b 0x100) e
