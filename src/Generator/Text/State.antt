-- ===== src/Generator/Text/State.antt =====
-- `random_string` leaves the generator in a state of words.
use schemaless_benchmarks.Base.{
  ℕ, zero, suc, ◌-◌, ◌%◌, Bool, true, false, ◌&&◌, not, List, [], ◌∷◌, ltb, leb, ◌==◌,
  if◌then◌else◌,
}
use schemaless_benchmarks.Random.{Random, random_next}
use schemaless_benchmarks.Random.Next.{IsState}
use schemaless_benchmarks.Random.Inverse.{next-IsState}
use schemaless_benchmarks.Generator.Text.{
  Piece, one, two, Round, letter, any_ascii, non_ascii, escaped, string_round, string_bytes,
  random_string,
}

if-IsState :
    (b : Bool) (x y : Round)
    → IsState x.random
    → IsState y.random
    → IsState (if b then x else y).random
if-IsState true x y hx hy = hx
if-IsState false x y hx hy = hy

module _ (random : Random) (h : IsState random) where
  abbrev once : Random
  once = (random_next random).1

  once-IsState : IsState once
  once-IsState = next-IsState random h

  abbrev twice : Random
  twice = (random_next once).1

  twice-IsState : IsState twice
  twice-IsState = next-IsState once once-IsState

letter-IsState : (n : ℕ) (random : Random) → IsState random → IsState (letter n random).random
unfolding letter
letter-IsState n random h = twice-IsState random h

any_ascii-IsState : (n : ℕ) (random : Random) → IsState random → IsState (any_ascii n random).random
unfolding any_ascii
any_ascii-IsState n random h =
    if-IsState ((random_next random).0 % 32 == 0) _ (letter n (random_next random).1)
      (twice-IsState random h) (letter-IsState n (random_next random).1 (once-IsState random h))

non_ascii-IsState :
    (ascii : Bool) (left n : ℕ) (random : Random)
    → IsState random
    → IsState (non_ascii ascii left n random).random
unfolding non_ascii
non_ascii-IsState ascii left n random h =
    if-IsState (not ascii && leb 2 left) _ (any_ascii n random)
      (if-IsState ((random_next random).0 % 4 == 0) _ (any_ascii n (random_next random).1)
        (twice-IsState random h)
        (any_ascii-IsState n (random_next random).1 (once-IsState random h)))
      (any_ascii-IsState n random h)

escaped-IsState :
    (ascii : Bool) (left n : ℕ) (random : Random)
    → IsState random
    → IsState (escaped ascii left n random).random
unfolding escaped
escaped-IsState ascii left n random h =
    if-IsState ((random_next random).0 % 128 == 0) _ (non_ascii ascii left n (random_next random).1)
      (twice-IsState random h)
      (non_ascii-IsState ascii left n (random_next random).1 (once-IsState random h))

round-IsState :
    (ascii spaces : Bool) (left n : ℕ) (random : Random)
    → IsState random
    → IsState (string_round ascii spaces left n random).random
unfolding string_round
round-IsState ascii spaces left n random h =
    let after = if spaces then n - 1 else n in
    if-IsState (spaces && n == 0) _ (escaped ascii left after random) (once-IsState random h)
      (escaped-IsState ascii left after random h)

last-IsState :
    (p : Piece) (random : Random)
    → IsState random
    → IsState
        (elim p as (λ _. List ℕ × Random) [
          | one a ↦ (a ∷ [], random)
          | two a b ↦ (a ∷ b ∷ [], random)
        ]).1
last-IsState (one a) random h = h
last-IsState (two a b) random h = h

piece-IsState :
    (p : Piece) (after_one after_two : List ℕ × Random)
    → IsState after_one.1
    → IsState after_two.1
    → IsState
        (elim p as (λ _. List ℕ × Random) [
          | one a ↦ (a ∷ after_one.0, after_one.1)
          | two a b ↦ (a ∷ b ∷ after_two.0, after_two.1)
        ]).1
piece-IsState (one a) after_one after_two h k = h
piece-IsState (two a b) after_one after_two h k = k

bytes-IsState :
    (ascii spaces : Bool) (left n : ℕ) (random : Random)
    → IsState random
    → IsState (string_bytes ascii spaces left n random).1
unfolding string_bytes
bytes-IsState ascii spaces zero n random h = h
bytes-IsState ascii spaces (suc zero) n random h =
    let round = string_round ascii spaces 1 n random in
    last-IsState round.piece round.random (round-IsState ascii spaces 1 n random h)
bytes-IsState ascii spaces (suc (suc left)) n random h =
    let round = string_round ascii spaces (suc (suc left)) n random in
    let kept = round-IsState ascii spaces (suc (suc left)) n random h in
    piece-IsState round.piece (string_bytes ascii spaces (suc left) round.next_space round.random)
      (string_bytes ascii spaces left round.next_space round.random)
      (bytes-IsState ascii spaces (suc left) round.next_space round.random kept)
      (bytes-IsState ascii spaces left round.next_space round.random kept)

pub random_string-IsState :
    (random : Random) (length : ℕ) → IsState random → IsState (random_string random length).1
unfolding random_string
random_string-IsState random length h =
    bytes-IsState _ _ length _ _ (next-IsState _ (skipped (ltb 50 length)))
  where
    skipped :
        (long : Bool)
        → IsState (if long then (random_next random).1 else (random_next (random_next random).1).1)
    skipped true = once-IsState random h
    skipped false = twice-IsState random h
