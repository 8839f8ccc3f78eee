-- ===== src/Base/Bits.antt =====
-- Laws of `bit_xor`, `bit_and` and `bit_or` at variables, from the digit recursion that the native
-- operations stand for.
use Prim.Native.Nat.{
  ℕ, zero, suc, ◌+◌, ◌-◌, ◌*◌, ◌/◌, ◌%◌, ◌^◌, ◌≤◌, ◌<◌, min, max, digits, bitwise, bit_and, bit_or,
  bit_xor, differ, bit_and-bitwise, bit_or-bitwise, bit_xor-bitwise,
}
use mathlib.Core.Path.{◌≡◌, refl, ap}
use native.Mathlib.Nat.{
  le_refl, pow-suc, mod-add-div', div-one, one-le-pow, pow-succ', div-div-eq-div-mul,
}
use native.Mathlib.Omega.{arith}

-- The native operations recurse on the digits of their first argument, on fuel.
module _ (rest : ℕ → ℕ) (digit : ℕ → ℕ → ℕ) where
  -- Fuel beyond the first argument changes nothing.
  spare_fuel : (x y n m : ℕ) → x ≤ n → n ≤ m → digits rest digit m x y ≡ digits rest digit n x y
  spare_fuel (suc x) y (suc n) (suc m) h k =
      ap (λ (t : ℕ). t * 2 + digit (suc x % 2) (y % 2))
        (spare_fuel (suc x / 2) (y / 2) n m (omega arith) (omega arith))
  spare_fuel zero y (suc n) (suc m) h k = refl
  spare_fuel x y (suc n) zero h k = absurd (omega arith)
  spare_fuel (suc x) y zero m h k = absurd (omega arith)
  spare_fuel zero y zero zero h k = refl
  spare_fuel zero y zero (suc m) h k = refl

  lowest_digit :
      (x y : ℕ)
      → bitwise rest digit (suc x) y
        ≡ bitwise rest digit (suc x / 2) (y / 2) * 2 + digit (suc x % 2) (y % 2)
  lowest_digit x y =
      ap (λ (t : ℕ). t * 2 + digit (suc x % 2) (y % 2))
        (spare_fuel (suc x / 2) (y / 2) (suc x / 2) x (le_refl _) (omega arith))

differ_bits : (x y : ℕ) → x < 2 → y < 2 → differ x y ≡ (x + y) % 2
differ_bits zero zero p q = refl
differ_bits zero (suc zero) p q = refl
differ_bits zero (suc (suc y)) p q = absurd (omega arith)
differ_bits (suc zero) zero p q = refl
differ_bits (suc zero) (suc zero) p q = refl
differ_bits (suc zero) (suc (suc y)) p q = absurd (omega arith)
differ_bits (suc (suc x)) y p q = absurd (omega arith)

-- One equation for the lowest digit of each operation.
pub bit_and_step : (a b : ℕ) → bit_and a b ≡ bit_and (a / 2) (b / 2) * 2 + min (a % 2) (b % 2)
bit_and_step (suc a) b = simp bit_and-bitwise (lowest_digit (λ _. 0) min a b)
bit_and_step zero b = simp bit_and-bitwise (omega arith)

pub bit_xor_step : (a b : ℕ) → bit_xor a b ≡ bit_xor (a / 2) (b / 2) * 2 + (a + b) % 2
bit_xor_step zero b = simp bit_xor-bitwise (omega arith)
bit_xor_step (suc a) b = simp bit_xor-bitwise (
    omega (
      arith,
      lowest_digit (λ y. y) differ a b,
      differ_bits (suc a % 2) (b % 2) (omega arith) (omega arith),
    ))

pub bit_or_step : (a b : ℕ) → bit_or a b ≡ bit_or (a / 2) (b / 2) * 2 + max (a % 2) (b % 2)
bit_or_step (suc a) b = simp bit_or-bitwise (lowest_digit (λ y. y) max a b)
bit_or_step zero b = simp bit_or-bitwise (omega arith)

half-lt : (k a : ℕ) → a < 2 ^ suc k → a / 2 < 2 ^ k
half-lt k a h = omega (arith, pow-suc 2 k)

-- Exclusive or keeps to the width of its arguments, commutes, and undoes itself.
pub bit_xor-lt : (k a b : ℕ) → a < 2 ^ k → b < 2 ^ k → bit_xor a b < 2 ^ k
bit_xor-lt zero zero zero p q = omega arith
bit_xor-lt zero zero (suc b) p q = absurd (omega arith)
bit_xor-lt zero (suc a) b p q = absurd (omega arith)
bit_xor-lt (suc k) a b p q = omega (
  arith,
  pow-suc 2 k,
  bit_xor_step a b,
  bit_xor-lt k (a / 2) (b / 2) (half-lt k a p) (half-lt k b q),
)

pub bit_xor_cancel : (k a b : ℕ) → a < 2 ^ k → b < 2 ^ k → bit_xor (bit_xor a b) b ≡ a
bit_xor_cancel zero zero zero p q = refl
bit_xor_cancel zero zero (suc b) p q = absurd (omega arith)
bit_xor_cancel zero (suc a) b p q = absurd (omega arith)
bit_xor_cancel (suc k) a b p q =
    let low : bit_xor a b / 2 ≡ bit_xor (a / 2) (b / 2) = omega (arith, bit_xor_step a b) in
    let top : bit_xor (bit_xor a b / 2) (b / 2) ≡ a / 2 =
      rw low (bit_xor_cancel k (a / 2) (b / 2) (half-lt k a p) (half-lt k b q)) in
    omega (arith, top, bit_xor_step a b, bit_xor_step (bit_xor a b) b)

pub bit_xor_comm : (k a b : ℕ) → a < 2 ^ k → b < 2 ^ k → bit_xor a b ≡ bit_xor b a
bit_xor_comm zero zero zero p q = refl
bit_xor_comm zero zero (suc b) p q = absurd (omega arith)
bit_xor_comm zero (suc a) b p q = absurd (omega arith)
bit_xor_comm (suc k) a b p q = omega (
  arith,
  bit_xor_step a b,
  bit_xor_step b a,
  bit_xor_comm k (a / 2) (b / 2) (half-lt k a p) (half-lt k b q),
)

-- `bit_or` keeps every bit of its second argument, and `bit_and` adds none to its second argument.
pub le-bit_or : (k a b : ℕ) → a < 2 ^ k → b < 2 ^ k → b ≤ bit_or a b
le-bit_or zero zero zero p q = omega arith
le-bit_or zero zero (suc b) p q = absurd (omega arith)
le-bit_or zero (suc a) b p q = absurd (omega arith)
le-bit_or (suc k) a b p q =
    omega (arith, bit_or_step a b, le-bit_or k (a / 2) (b / 2) (half-lt k a p) (half-lt k b q))

pub bit_or-lt : (k a b : ℕ) → a < 2 ^ k → b < 2 ^ k → bit_or a b < 2 ^ k
bit_or-lt zero zero zero p q = omega arith
bit_or-lt zero zero (suc b) p q = absurd (omega arith)
bit_or-lt zero (suc a) b p q = absurd (omega arith)
bit_or-lt (suc k) a b p q = omega (
  arith,
  pow-suc 2 k,
  bit_or_step a b,
  bit_or-lt k (a / 2) (b / 2) (half-lt k a p) (half-lt k b q),
)

pub bit_and-le : (k a b : ℕ) → b < 2 ^ k → bit_and a b ≤ b
bit_and-le zero a zero q = zero_case a
  where
    zero_fuel : (n a : ℕ) → a ≤ n → bit_and a 0 ≤ 0
    zero_fuel n zero h = omega arith
    zero_fuel zero (suc a) h = absurd (omega arith)
    zero_fuel (suc n) (suc a) h =
        omega (arith, bit_and_step (suc a) 0, zero_fuel n (suc a / 2) (omega arith))

    zero_case : (a : ℕ) → bit_and a 0 ≤ 0
    zero_case a = zero_fuel a a (omega arith)
bit_and-le zero a (suc b) q = absurd (omega arith)
bit_and-le (suc k) a b q =
    omega (arith, bit_and_step a b, bit_and-le k (a / 2) (b / 2) (half-lt k b q))

or_nothing : (bound x : ℕ) → x ≤ bound → bit_or x 0 ≡ x
or_nothing (suc bound) (suc x) h =
    let rest = or_nothing bound (suc x / 2) (omega arith) in
    omega (arith, rest, bit_or_step (suc x) 0)
or_nothing bound zero h = refl
or_nothing zero (suc x) h = absurd (omega arith)

-- A number shifted left by `k` and one that fits `k` bits do not overlap: their union is their sum.
pub disjoint_sum : (low k high : ℕ) → low < 2 ^ k → bit_or (high * 2 ^ k) low ≡ high * 2 ^ k + low
disjoint_sum low (suc k) high p =
    let twice : high * 2 ^ suc k ≡ 2 * (high * 2 ^ k) =
      omega (arith, ap (λ (power : ℕ). high * power) (pow-suc 2 k)) in
    let once : high * 2 ^ suc k / 2 ≡ high * 2 ^ k = omega (arith, twice) in
    let rest : bit_or (high * 2 ^ suc k / 2) (low / 2) ≡ high * 2 ^ k + low / 2 =
      rw once (disjoint_sum (low / 2) k high (half-lt k low p)) in
    omega (arith, twice, rest, bit_or_step (high * 2 ^ suc k) low)
disjoint_sum zero zero high p = omega (arith, or_nothing (high * 2 ^ 0) (high * 2 ^ 0))
disjoint_sum (suc low) zero high p = absurd (omega arith)

pub zero-bit_or : (a : ℕ) → bit_or 0 a ≡ a
zero-bit_or a = simp bit_or-bitwise refl

-- The union of two numbers that do not overlap is their sum.
pub bit_or-eq-add : (k n r : ℕ) → n % 2 ^ k ≡ 0 → r < 2 ^ k → bit_or n r ≡ n + r
bit_or-eq-add k n r e p =
    let n_shifted : n ≡ n / 2 ^ k * 2 ^ k = omega (arith, mod-add-div' n (2 ^ k)) in
    rw n_shifted (disjoint_sum r k (n / 2 ^ k) p)

-- A shift right goes into both operations.
pub bit_or_half : (a b : ℕ) → bit_or a b / 2 ≡ bit_or (a / 2) (b / 2)
bit_or_half a b = omega (arith, bit_or_step a b)

pub bit_and_half : (a b : ℕ) → bit_and a b / 2 ≡ bit_and (a / 2) (b / 2)
bit_and_half a b = omega (arith, bit_and_step a b)

pub bit_or_shift : (k a b : ℕ) → bit_or a b / 2 ^ k ≡ bit_or (a / 2 ^ k) (b / 2 ^ k)
bit_or_shift zero a b = simp div-one
bit_or_shift (suc k) a b = simp (pow-succ', ← div-div-eq-div-mul, bit_or_half, bit_or_shift k)

pub bit_and_shift : (k a b : ℕ) → bit_and a b / 2 ^ k ≡ bit_and (a / 2 ^ k) (b / 2 ^ k)
bit_and_shift zero a b = simp div-one
bit_and_shift (suc k) a b = simp (pow-succ', ← div-div-eq-div-mul, bit_and_half, bit_and_shift k)

-- A mask of ones keeps a number that it covers.
pub bit_and_ones : (k a : ℕ) → a < 2 ^ k → bit_and a (2 ^ k - 1) ≡ a
bit_and_ones zero zero p = refl
bit_and_ones zero (suc a) p = absurd (omega arith)
bit_and_ones (suc k) a p =
    let halved : (2 ^ suc k - 1) / 2 ≡ 2 ^ k - 1 =
      omega (arith, pow-suc 2 k, one-le-pow k 2 (omega arith)) in
    omega (
      arith,
      pow-suc 2 k,
      one-le-pow k 2 (omega arith),
      bit_and_step a (2 ^ suc k - 1),
      ap (bit_and (a / 2)) halved,
      bit_and_ones k (a / 2) (half-lt k a p),
    )
