-- ===== src/Generator/Init/Numbers.antt =====
-- The numbers of an object, and its keys.
use schemaless_benchmarks.Base.{
  ℕ, zero, suc, ◌+◌, ◌*◌, ◌/◌, ◌^◌, ◌<◌, ◌≡◌, ◌≢◌, refl, ap, sym, arith, Bool, true, false,
  Bool-cases, inl, inr, List, [], ◌∷◌, All, bit_and, ltb, ◌==◌, if◌then◌else◌, pos,
}
use schemaless_benchmarks.Base.Bits.{bit_and-le, disjoint_sum}
use schemaless_benchmarks.Object.Valid.{IsInt64}
use schemaless_benchmarks.Random.{Random, random_next, random_inverse, bits_of, count_bits}
use schemaless_benchmarks.Random.Next.{IsState}
use schemaless_benchmarks.Random.Inverse.{next-IsState, next-word, random_inverse_total, IsInverse}
use schemaless_benchmarks.Generator.Outcome.{Ensures, holds, gave_up, Ensures-bind, checked}
use schemaless_benchmarks.Generator.Text.{random_key}
use schemaless_benchmarks.Generator.Text.Keys.{random_key-IsLowercase}
use schemaless_benchmarks.Generator.Init.{
  str_equal, is_used, unused_key, random_word, random_uint, to_signed, negate, small_int,
  random_int, Reals, random_double,
}
use schemaless_benchmarks.Generator.Init.Generated.{IsKey}

pub str_equal_self : (s : List ℕ) → str_equal s s ≡ true
str_equal_self [] = refl
str_equal_self (a ∷ s) = ground (arith, str_equal_self s)

fresh_of_unused :
    (key : List ℕ) (used : List (List ℕ)) → is_used key used ≡ false → All (λ j. key ≢ j) used
fresh_of_unused key [] h = tt
fresh_of_unused key (k ∷ ks) h = elim (Bool-cases (str_equal key k)) [
  | inl same ↦ cc (rw same at h)
  | inr other ↦ (
    λ e. cc (sym other, ap (str_equal key) (sym e), str_equal_self key),
    fresh_of_unused key ks (rw other at h),
  )
]

-- A key that the loop ends with.
abbrev pub IsFreshKey : List (List ℕ) → List ℕ × Random → Type 0
IsFreshKey used (key, random) = IsKey key × All (λ j. key ≢ j) used × IsState random

pub unused_key-Ensures :
    (retries : ℕ) (used : List (List ℕ)) (random : Random)
    → IsState random
    → Ensures (IsFreshKey used) (unused_key retries used random)
unfolding unused_key
unused_key-Ensures zero used random h = gave_up
unused_key-Ensures (suc retries) used random h =
    let letters = random_key-IsLowercase random h in
    elim (Bool-cases (is_used (random_key random).0 used)) [
      | inl again ↦ rw again (unused_key-Ensures retries used (random_key random).1 letters.3)
      | inr fresh ↦
          rw fresh
            (holds ((letters.0, letters.1, letters.2), fresh_of_unused _ used fresh, letters.3))
    ]

-- A checked `random_inverse` never faults.
random_inverse-Ensures :
    (random : Random) (max : ℕ)
    → IsState random
    → max < 2 ^ 32
    → Ensures (IsInverse max) (checked (random_inverse random max))
random_inverse-Ensures random max h q =
    let (result, e, inverse) = random_inverse_total random max h q in rw e (holds inverse)

-- How far a small number may exceed its maximum.
million : 2 ^ (bits_of 0xfffff / 3) ≡ 64
unfolding count_bits
million = refl

word-lt :
    (mask : ℕ) (random : Random)
    → mask < 2 ^ 32
    → IsState random
    → ((random_word mask random).0 < (mask + 1) * 2 ^ 32) × IsState (random_word mask random).1
unfolding random_word
word-lt mask random p h =
    let masked = bit_and (random_next random).0 mask in
    let low = (random_next (random_next random).1).0 in
    let state = next-IsState random h in
    (
      omega (
        arith,
        disjoint_sum low 32 masked (next-word (random_next random).1 state),
        next-word (random_next random).1 state,
        bit_and-le 32 (random_next random).0 mask p,
      ),
      next-IsState (random_next random).1 state,
    )

-- Neither branch of the code for an unsigned number leaves the range of a signed one.
pub random_uint-Ensures :
    (random : Random)
    → IsState random
    → Ensures (λ (u, random'). (u < 2 ^ 63) × IsState random') (random_uint random)
unfolding random_uint
random_uint-Ensures random h =
    Ensures-bind (random_inverse-Ensures random 10000 h (omega arith)) λ (choice, random₁) inverse.
      elim (Bool-cases (ltb 5000 choice)) [
        | inl huge ↦
            let word = word-lt 0x7fffffff random₁ (omega arith) inverse.state in
            rw huge (holds (omega (arith, word.0), word.1))
        | inr small ↦ rw small (narrow random₁ inverse.state)
      ]
  where
    narrow :
        (random : Random)
        → IsState random
        → Ensures
            (λ (u, random'). (u < 2 ^ 63) × IsState random')
            (checked (random_inverse random 0xfffff))
    narrow random h =
        let (result, e, inverse) = random_inverse_total random 0xfffff h (omega arith) in
        rw e (holds (omega (arith, inverse.bounded, million), inverse.state))

negate-IsInt64 : (n : ℕ) → n < 2 ^ 63 → IsInt64 (negate n)
negate-IsInt64 zero h = omega arith
negate-IsInt64 (suc n) h = omega arith

to_signed-IsInt64 : (u : ℕ) → u < 2 ^ 64 → IsInt64 (to_signed u)
to_signed-IsInt64 u h = ground arith

small_int-Ensures :
    (random : Random)
    → IsState random
    → Ensures (λ (i, random'). IsInt64 i × IsState random') (small_int random)
unfolding small_int
small_int-Ensures random h =
    Ensures-bind (random_inverse-Ensures random 0xfffff h (omega arith)) λ (small, random₁) inverse.
      let fits : small < 2 ^ 63 = omega (arith, inverse.bounded, million) in
      holds (
        signed small fits (bit_and (random_next random₁).0 1 == 0),
        next-IsState random₁ inverse.state,
      )
  where
    signed :
        (small : ℕ) → small < 2 ^ 63 → (b : Bool) → IsInt64 (if b then pos small else negate small)
    signed small fits true = fits
    signed small fits false = negate-IsInt64 small fits

pub random_int-Ensures :
    (random : Random)
    → IsState random
    → Ensures (λ (i, random'). IsInt64 i × IsState random') (random_int random)
unfolding random_int
random_int-Ensures random h =
    Ensures-bind (random_inverse-Ensures random 10000 h (omega arith)) λ (choice, random₁) inverse.
      elim (Bool-cases (ltb 5000 choice)) [
        | inl huge ↦
            let word = word-lt 0xffffffff random₁ (omega arith) inverse.state in
            rw huge (holds (to_signed-IsInt64 _ (omega (arith, word.0)), word.1))
        | inr small ↦ rw small (small_int-Ensures random₁ inverse.state)
      ]

pub random_double-IsState :
    (real : Reals) (random : Random) → IsState random → IsState (random_double real random).1
unfolding random_double
random_double-IsState real random h =
    next-IsState _
      (next-IsState _ (next-IsState _ (next-IsState _ (next-IsState _ (next-IsState _ h)))))

-- A word below 2 ^ 63 is the same number with a sign.
pub to_signed_small : (u : ℕ) → u < 2 ^ 63 → to_signed u ≡ pos u
to_signed_small u small = ground arith
