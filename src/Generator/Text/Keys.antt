-- ===== src/Generator/Text/Keys.antt =====
-- `random_key`: short lowercase keys.
use schemaless_benchmarks.Base.{
  ℕ, zero, suc, ◌+◌, ◌%◌, ◌≤◌, ◌≡◌, refl, ap, arith, List, [], ◌∷◌, All, length,
}
use schemaless_benchmarks.Object.Valid.{IsCharacter}
use schemaless_benchmarks.Random.{Random, random_next}
use schemaless_benchmarks.Random.Next.{IsState}
use schemaless_benchmarks.Random.Inverse.{next-IsState}
use schemaless_benchmarks.Generator.Text.{key_letters, random_key}

abbrev pub IsLowercase : ℕ → Type 0
IsLowercase b = (b'a' ≤ b) × (b ≤ b'z')

letters-IsLowercase : (n : ℕ) (random : Random) → All IsLowercase (key_letters n random).0
unfolding key_letters
letters-IsLowercase zero random = tt
letters-IsLowercase (suc n) random = (omega arith, letters-IsLowercase n (random_next random).1)

length-letters : (n : ℕ) (random : Random) → length (key_letters n random).0 ≡ n
unfolding key_letters
length-letters zero random = refl
length-letters (suc n) random = ap suc (length-letters n (random_next random).1)

letters-IsState : (n : ℕ) (random : Random) → IsState random → IsState (key_letters n random).1
unfolding key_letters
letters-IsState zero random h = h
letters-IsState (suc n) random h = letters-IsState n (random_next random).1 (next-IsState random h)

-- From any state, a random key is 2 to 10 lowercase letters, and the state stays a pair of words.
pub random_key-IsLowercase :
    (random : Random)
    → IsState random
    → All IsLowercase (random_key random).0
      × (2 ≤ length (random_key random).0)
      × (length (random_key random).0 ≤ 10)
      × IsState (random_key random).1
unfolding random_key
random_key-IsLowercase random h =
    let n = (random_next random).0 % 9 + 2 in
    (
      letters-IsLowercase n (random_next random).1,
      omega (arith, length-letters n (random_next random).1),
      omega (arith, length-letters n (random_next random).1),
      letters-IsState n (random_next random).1 (next-IsState random h),
    )

pub IsLowercase-IsCharacter : (s : List ℕ) → All IsLowercase s → All IsCharacter s
IsLowercase-IsCharacter [] h = tt
IsLowercase-IsCharacter (b ∷ s) h = (omega arith, IsLowercase-IsCharacter s h.1)
