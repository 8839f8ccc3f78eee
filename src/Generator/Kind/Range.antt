-- ===== src/Generator/Kind/Range.antt =====
-- What `random_type` chooses: never a division by zero, lengths in range, and a container exactly
-- where one is demanded or allowed.
use native.Mathlib.Nat.{pow-suc, one-le-pow, pow-le-pow_right, mod-lt}
use schemaless_benchmarks.Base.{
  ℕ, zero, suc, ◌+◌, ◌-◌, ◌*◌, ◌/◌, ◌%◌, ◌^◌, ◌≤◌, ◌<◌, ◌≡◌, ◌≢◌, refl, ap, ◌∙◌, sym, arith, true,
  false, Bool-cases, inl, inr, ◌⊎◌, Option, some, bit_and, ltb, leb, ltb→lt, ◌==◌, u32,
  if◌then◌else◌, ◌<<<◌,
}
use schemaless_benchmarks.Random.{Random, random_next, bits_of, count_bits}
use schemaless_benchmarks.Random.Next.{IsState}
use schemaless_benchmarks.Random.Inverse.{next-IsState, random_inverse_total}
use schemaless_benchmarks.Generator.Kind.{
  Kind, str, array, map, Draw, double_odds, double_length, random_container, switch, with_length,
  random_scalar, random_type,
}

double_odds_lem : (d odds : ℕ) → odds * 2 ^ d < 2 ^ 32 → double_odds d odds ≡ odds * 2 ^ d
unfolding double_odds
double_odds_lem zero odds h = omega arith
double_odds_lem (suc d) odds h =
    let shift : odds * 2 ^ suc d ≡ odds * 2 * 2 ^ d =
      omega (arith, ap (λ (t : ℕ). odds * t) (pow-suc 2 d)) in
    let fits : odds * 2 < 2 ^ 32 =
      omega (arith, h, shift, one-le-pow d 2 (omega arith), below (odds * 2) (2 ^ d)) in
    let same : u32 (odds <<< 1) ≡ odds * 2 = omega arith in
    rw same (double_odds_lem d (odds * 2) (omega arith) ∙ sym shift)
  where
    below : (a b : ℕ) → 1 ≤ b → a ≤ a * b
    below a b p = grind arith

double_length_lem : (rounds len : ℕ) → double_length rounds len ≡ len * 2 ^ rounds
unfolding double_length
double_length_lem zero len = omega arith
double_length_lem (suc rounds) len =
    double_length_lem rounds (len * 2) ∙ omega (arith, ap (λ (t : ℕ). len * t) (pow-suc 2 rounds))

-- The length that a type comes with. A container stands above depth 31 only, and at depth 0 there is
-- nothing else.
abbrev pub Fits : ℕ → ℕ → Kind → ℕ → Type 0
Fits size depth array n = (depth < 31) × (3 * 2 ^ (size - depth) ≤ n) × (n < 6 * 2 ^ (size - depth))
Fits size depth map n =
    (depth < 31) × (3 * 2 ^ (size - depth) ≤ 2 * n + 1) × (n < 3 * 2 ^ (size - depth))
Fits size depth str n = (depth ≢ 0) × (n < 1008)
Fits size depth _ n = (depth ≢ 0) × (n ≡ 0)

pub record IsDraw (size depth : ℕ) (draw : Draw) : Type 0 where
  pub fits : Fits size depth draw.kind draw.length
  pub state : IsState draw.random

abbrev Draws : ℕ → ℕ → Option Draw → Type 0
Draws size depth o = (draw : Draw) × (o ≡ some draw) × IsDraw size depth draw

container-Draws :
    (size depth : ℕ) (random : Random)
    → depth < 31
    → IsState random
    → Draws size depth (random_container size depth random)
unfolding random_container
container-Draws size depth random shallow h =
    let power = one-le-pow (size - depth) 2 (omega arith) in
    let nonzero : (double_length (size - depth) 3 == 0) ≡ false =
      ground (arith, double_length_lem (size - depth) 3, power) in
    let state = next-IsState (random_next random).1 (next-IsState random h) in
    let below =
      mod-lt (random_next (random_next random).1).0 {m = double_length (size - depth) 3}
        (omega (arith, double_length_lem (size - depth) 3, power)) in
    elim (Bool-cases (bit_and (random_next random).0 1 == 0)) [
      | inl is_array ↦
          rw (random_container, nonzero, is_array)
            (
              _,
              refl,
              record { fits = omega (arith, double_length_lem (size - depth) 3); state = state },
            )
      | inr is_map ↦
          rw (random_container, nonzero, is_map)
            (
              _,
              refl,
              record { fits = omega (arith, double_length_lem (size - depth) 3); state = state },
            )
    ]

thousand : 2 ^ (bits_of 1000 / 3) ≡ 8
unfolding count_bits
thousand = refl

with_length-Draws :
    (size depth : ℕ) (kind : Kind) (random : Random)
    → depth ≢ 0
    → kind ≢ array
    → kind ≢ map
    → IsState random
    → Draws size depth (with_length kind random)
unfolding with_length
with_length-Draws size depth str random deep not_array not_map h =
    let (result, e, inverse) = random_inverse_total random 1000 h (omega arith) in
    rw (e, with_length)
      (
        _,
        refl,
        record { fits = (deep, omega (arith, inverse.bounded, thousand)); state = inverse.state },
      )
with_length-Draws size depth array random deep not_array not_map h = absurd (not_array refl)
with_length-Draws size depth map random deep not_array not_map h = absurd (not_map refl)
with_length-Draws size depth _ random deep not_array not_map h =
    (_, refl, record { fits = (deep, refl); state = h })

switch-ne : (k : ℕ) → (switch k ≢ array) × (switch k ≢ map)
switch-ne zero = (cc, cc)
switch-ne (suc zero) = (cc, cc)
switch-ne (suc (suc zero)) = (cc, cc)
switch-ne (suc (suc (suc zero))) = (cc, cc)
switch-ne (suc (suc (suc (suc zero)))) = (cc, cc)
switch-ne (suc (suc (suc (suc (suc zero))))) = (cc, cc)
switch-ne (suc (suc (suc (suc (suc (suc zero)))))) = (cc, cc)
switch-ne (suc (suc (suc (suc (suc (suc (suc k))))))) = (cc, cc)

scalar-Draws :
    (size depth : ℕ) (random : Random)
    → depth ≢ 0
    → IsState random
    → Draws size depth (random_scalar random)
unfolding random_scalar
scalar-Draws size depth random deep h = elim (Bool-cases ((random_next random).0 % 64 == 0)) [
  | inl real ↦ rw real (_, refl, record { fits = (deep, refl); state = next-IsState random h })
  | inr rest ↦
      let kind = switch ((random_next (random_next random).1).0 % 8) in
      rw rest (
        with_length-Draws size depth kind _ deep (switch-ne _).0 (switch-ne _).1
          (next-IsState (random_next random).1 (next-IsState random h)))
]

odds_at : (depth : ℕ) → depth < 31 → double_odds depth 2 ≡ 2 ^ suc depth
odds_at depth h =
    let power : 2 ^ depth ≤ 2 ^ 30 =
      pow-le-pow_right (omega arith) {i = depth} {j = 30} (omega arith) in
    double_odds_lem depth 2 (omega (arith, power)) ∙ omega (arith, pow-suc 2 depth)

not_root : (depth r : ℕ) → leb (r % double_odds depth 2) 2 ≡ false → depth ≢ 0
unfolding double_odds
not_root zero r h = absurd (ground arith)
not_root (suc depth) r h = λ e. omega arith

-- From any state, for any size and depth, `random_type` divides by no zero. It chooses a container
-- only above depth 31, and nothing else at depth 0; an array has 3 to 6 times 2 ^ (size - depth)
-- elements (less one), a map half as many entries, a string less than 1008 bytes.
pub random_type-IsDraw :
    (size depth : ℕ) (random : Random)
    → IsState random
    → (draw : Draw) × (random_type size depth random ≡ some draw) × IsDraw size depth draw
unfolding random_type
random_type-IsDraw size depth random h = elim (Bool-cases (ltb depth 31)) [
  | inr deep ↦ rw deep (scalar-Draws size depth random (ground arith) h)
  | inl shallow ↦
      let depth_lt = ltb→lt depth 31 shallow in
      let nonzero : (double_odds depth 2 == 0) ≡ false =
        ground (arith, odds_at depth depth_lt, one-le-pow (suc depth) 2 (omega arith)) in
      rw (shallow, nonzero) (chosen depth_lt (Bool-cases _))
]
  where
    share : ℕ
    share = (random_next random).0 % double_odds depth 2

    chosen :
        depth < 31
        → (leb share 2 ≡ true) ⊎ (leb share 2 ≡ false)
        → (draw : Draw) × ((if leb share 2
              then random_container size depth (random_next random).1
              else random_scalar (random_next random).1)
            ≡ some draw)
          × IsDraw size depth draw
    chosen shallow (inl container) =
        rw container
          (container-Draws size depth (random_next random).1 shallow (next-IsState random h))
    chosen shallow (inr scalar) = rw scalar (
        scalar-Draws size depth (random_next random).1
          (not_root depth (random_next random).0 scalar) (next-IsState random h))
