-- ===== src/Random.antt =====
-- src/common/generator.c: the multiply-with-carry generator and the distributions built on it.
pub mod Next
pub mod Inverse
mod Tests
use schemaless_benchmarks.Base.{
  ℕ, zero, suc, ◌+◌, ◌-◌, ◌*◌, ◌/◌, ◌%◌, ◌^◌, Bool, true, false, Option, none, some, bit_and,
  bit_or, ltb, leb, ◌==◌, if◌then◌else◌, u32, u64, ◌<<<◌, ◌>>>◌,
}

-- `random_t`: two 32-bit words.
pub record Random : Type 0 where
  pub v : ℕ
  pub c : ℕ

abbrev pub multiplier : ℕ
multiplier = 3636507990

-- All of `r` is 64-bit arithmetic; `0xffffffff - 1 - r` wraps below 0.
unfoldable pub random_next : Random → ℕ × Random
random_next random =
    let r = u64 (u64 (multiplier * random.v) + random.c) in
    let v' = u32 (u64 (0xffffffff - 1 + 2 ^ 64 - r)) in (v', record { v = v'; c = u32 (r >>> 32) })

unfoldable pub random_seed : ℕ → Random
random_seed val = record {
  v = u32 (bit_or (bit_and val 0xfffffffe) 0x0000100);
  c = u32 (bit_or (bit_and (val >>> 32) 0xfffeffff) 0x0100000);
}

-- `while ((counter >>= 1)) ++bits;` The counter is halved in every round: 32 rounds are enough.
unfoldable pub count_bits : ℕ → ℕ → ℕ → ℕ
count_bits zero counter bits = bits
count_bits (suc fuel) counter bits =
    let rest = count_bits fuel (counter >>> 1) (bits + 1) in
    if counter >>> 1 == 0 then bits else rest

-- `none` is a division by zero, which C leaves undefined.
abbrev pub mod? : ℕ → ℕ → Option ℕ
mod? a b = if b == 0 then none else some (a % b)

abbrev pub bits_of : ℕ → ℕ
bits_of max = count_bits 32 max 1

-- The divisor of `max`, from the first number drawn: `random % (1 << (bits * 2 / 3)) + 1`.
abbrev pub divisor : ℕ → ℕ → ℕ
divisor max r = r % (1 <<< (bits_of max * 2 / 3)) + 1

-- Three numbers are drawn, in this order.
unfoldable pub random_inverse : Random → ℕ → Option (ℕ × Random)
unfolding random_next count_bits
random_inverse random max =
    if max == 0
    then some (max, random)
    else if max == 1
    then (let (r, random₁) = random_next random in some (bit_and r 1, random₁))
    else let (r₁, random₁) = random_next random in
      let div = divisor max r₁ in
      let (r₂, random₂) = random_next random₁ in
      let (r₃, random₃) = random_next random₂ in
      elim (mod? r₂ (max / div)) [
        | none ↦ none
        | some ret ↦ some (u32 (ret + r₃ % (1 <<< (bits_of max / 3))), random₃)
      ]
