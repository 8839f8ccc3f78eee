-- ===== src/Random/Inverse.antt =====
-- `random_inverse`: it divides by no zero, and its result is near the range that it is asked for.
use native.Mathlib.Nat.{
  le-div_iff_mul-le, pow-le-pow_right, pow-suc, one-le-pow, div-le_self, mod-lt,
}
use schemaless_benchmarks.Base.{
  ℕ, zero, suc, ◌+◌, ◌*◌, ◌/◌, ◌%◌, ◌^◌, ◌≤◌, ◌<◌, ◌≡◌, refl, arith, u32, bit_and, ◌>>>◌, ◌<<<◌,
  false, some, Bool-cases, inl, inr, ◌==◌,
}
use schemaless_benchmarks.Base.Bits.{bit_and-le}
use schemaless_benchmarks.Random.{Random, random_next, count_bits, bits_of, divisor, random_inverse}
use schemaless_benchmarks.Random.Next.{IsState, random_next-IsState}

-- The loop counts the binary digits of the counter.
count_bits_lem :
    (fuel counter bits : ℕ)
    → 0 < counter
    → counter < 2 ^ fuel
    → (k : ℕ) × (count_bits fuel counter bits ≡ bits + k)
      × (2 ^ k ≤ counter)
      × (counter < 2 ^ suc k)
unfolding count_bits
count_bits_lem zero counter bits p q = absurd (omega arith)
count_bits_lem (suc fuel) counter bits p q = elim (Bool-cases (counter >>> 1 == 0)) [
  | inl done ↦ (0, rw done (omega arith), omega arith, ground arith)
  | inr more ↦
      let nonzero : 0 < counter >>> 1 = ground arith in
      let half : counter >>> 1 < 2 ^ fuel = omega (arith, pow-suc 2 fuel) in
      let (k, e, low, high) = count_bits_lem fuel (counter >>> 1) (bits + 1) nonzero half in
      (
        suc k,
        rw more (omega (arith, e)),
        omega (arith, pow-suc 2 k, low),
        omega (arith, pow-suc 2 k, pow-suc 2 (suc k), high),
      )
]

-- For a maximum of at least 2, the divisor is at most the maximum.
divisor-le : (max r : ℕ) → 2 ≤ max → max < 2 ^ 32 → divisor max r ≤ max
divisor-le max r p q =
    let (k, e, low, high) = count_bits_lem 32 max 1 (omega arith) q in
    let some_bits : 1 ≤ k = one_le k p high in
    let exponent : bits_of max * 2 / 3 ≤ k = omega (arith, e) in
    let power : 2 ^ (bits_of max * 2 / 3) ≤ 2 ^ k = pow-le-pow_right (omega arith) exponent in
    omega (arith, power, one-le-pow (bits_of max * 2 / 3) 2 (omega arith))
  where
    one_le : (k : ℕ) → 2 ≤ max → max < 2 ^ suc k → 1 ≤ k
    one_le zero h l = absurd (omega arith)
    one_le (suc k) h l = omega arith

quotient_pos : (max r : ℕ) → 2 ≤ max → max < 2 ^ 32 → 1 ≤ max / divisor max r
quotient_pos max r p q = (le-div_iff_mul-le (omega arith)).1 (omega (arith, divisor-le max r p q))

-- What `random_inverse` promises of its result.
pub record IsInverse (max : ℕ) (result : ℕ × Random) : Type 0 where
  pub bounded : result.0 < max + 2 ^ (bits_of max / 3)
  pub word : result.0 < 2 ^ 32
  pub state : IsState result.1

pub next-IsState : (random : Random) → IsState random → IsState (random_next random).1
next-IsState random h = (random_next-IsState random h).2

pub next-word : (random : Random) → IsState random → (random_next random).0 < 2 ^ 32
next-word random h = rw (random_next-IsState random h).1 ((random_next-IsState random h).2).v_word

-- The three draws for a maximum of at least 2.
module _ (random : Random) (max : ℕ) (h : IsState random) (p : 2 ≤ max) (q : max < 2 ^ 32) where
  abbrev first : ℕ × Random
  first = random_next random

  abbrev second : ℕ × Random
  second = random_next first.1

  abbrev third : ℕ × Random
  third = random_next second.1

  abbrev large_result : ℕ × Random
  large_result =
      (u32 (second.0 % (max / divisor max first.0) + third.0 % (1 <<< (bits_of max / 3))), third.1)

  large_runs : random_inverse random max ≡ some large_result
  unfolding random_inverse
  large_runs =
      let nonzero : (max == 0) ≡ false = ground arith in
      let not_one : (max == 1) ≡ false = ground arith in
      let divides : (max / divisor max first.0 == 0) ≡ false =
        ground (arith, quotient_pos max first.0 p q) in
      rw (nonzero, not_one, divides)

  large-IsInverse : IsInverse max large_result
  large-IsInverse = record {
    bounded = omega (
      arith,
      quotient_pos max first.0 p q,
      div-le_self max (divisor max first.0),
      mod-lt second.0 (quotient_pos max first.0 p q),
      mod-lt third.0 (one-le-pow (bits_of max / 3) 2 (omega arith)),
      one_shifted (bits_of max / 3),
    );
    word = omega arith;
    state = next-IsState second.1 (next-IsState first.1 (next-IsState random h));
  }
    where
      one_shifted : (k : ℕ) → 1 <<< k ≡ 2 ^ k
      one_shifted k = omega arith

-- From any state and for any 32-bit maximum, `random_inverse` divides by no zero and returns a 32-bit
-- number that exceeds the maximum by less than `1 << (bits / 3)`, where `bits` is the number of binary
-- digits of the maximum.
pub random_inverse_total :
    (random : Random) (max : ℕ)
    → IsState random
    → max < 2 ^ 32
    → (result : ℕ × Random) × (random_inverse random max ≡ some result) × IsInverse max result
unfolding random_inverse
random_inverse_total random zero h q =
    ((0, random), refl, record { bounded = omega arith; word = omega arith; state = h })
random_inverse_total random (suc zero) h q = (
  (bit_and (random_next random).0 1, (random_next random).1),
  refl,
  record {
    bounded = omega (arith, bit_and-le 1 (random_next random).0 1 (omega arith));
    word = omega (arith, bit_and-le 1 (random_next random).0 1 (omega arith));
    state = next-IsState random h;
  },
)
random_inverse_total random (suc (suc n)) h q = (
  large_result random (suc (suc n)) h (omega arith) q,
  large_runs random (suc (suc n)) h (omega arith) q,
  large-IsInverse random (suc (suc n)) h (omega arith) q,
)
