-- ===== src/Generator/Text/Utf8.antt =====
-- What `random_string` writes: valid UTF-8 without null bytes, of exactly the length asked for.
use native.Mathlib.Nat.{mod-lt}
use schemaless_benchmarks.Base.{
  ℕ, zero, suc, ◌+◌, ◌-◌, ◌%◌, ◌≤◌, ◌<◌, ◌≡◌, refl, ap, arith, Bool, true, false, ◌&&◌, List, [],
  ◌∷◌, All, length, leb, leb→le, Bool-cases, inl, inr, ◌==◌, if◌then◌else◌,
}
use schemaless_benchmarks.Object.Valid.{IsCharacter}
use schemaless_benchmarks.Random.{Random, random_next}
use schemaless_benchmarks.Generator.Text.{
  Piece, one, two, Round, special, letter, any_ascii, encode, non_ascii, escaped, string_round,
  string_bytes, random_string,
}

-- UTF-8 text of ASCII characters but null, and of characters from U+0080 to U+00FF in two bytes.
pub data IsUtf8 : List ℕ → Type 0 where
  done : IsUtf8 []
  ascii : {a : ℕ} {s : List ℕ} → 1 ≤ a → a < 0x80 → IsUtf8 s → IsUtf8 (a ∷ s)
  pair :
      {a b : ℕ} {s : List ℕ}
      → 0xC2 ≤ a
      → a ≤ 0xC3
      → 0x80 ≤ b
      → b ≤ 0xBF
      → IsUtf8 s
      → IsUtf8 (a ∷ b ∷ s)

-- What a round with `left` bytes to go may write.
abbrev IsPiece : ℕ → Piece → Type 0
IsPiece left (one a) = (1 ≤ a) × (a < 0x80)
IsPiece left (two a b) = (2 ≤ left) × (0xC2 ≤ a) × (a ≤ 0xC3) × (0x80 ≤ b) × (b ≤ 0xBF)

-- Whether a test holds of the first `n` numbers, so that evaluation proves it of each.
every_below : (ℕ → Bool) → ℕ → Bool
every_below test zero = true
every_below test (suc n) = every_below test n && test n

every_below_sound : (test : ℕ → Bool) (n x : ℕ) → x < n → every_below test n ≡ true → test x ≡ true
unfolding every_below
every_below_sound test (suc n) x less all = ground (arith, every_below_sound test n x)
every_below_sound test zero x less all = absurd (omega arith)

abbrev is_pair : Piece → Bool
is_pair (one a) = false
is_pair (two a b) = (leb 0xC2 a && leb a 0xC3) && (leb 0x80 b && leb b 0xBF)

is_pair_sound : (left : ℕ) (p : Piece) → 2 ≤ left → is_pair p ≡ true → IsPiece left p
is_pair_sound left (one a) h e = cc
is_pair_sound left (two a b) h e = ground arith

encode_table : every_below (λ x. is_pair (encode (0xA1 + x))) 0x5F ≡ true
unfolding every_below encode
encode_table = refl

encode-IsPiece : (left x : ℕ) → 2 ≤ left → x < 0x5F → IsPiece left (encode (0xA1 + x))
encode-IsPiece left x h lt =
    is_pair_sound left (encode (0xA1 + x)) h
      (every_below_sound (λ x. is_pair (encode (0xA1 + x))) 0x5F x lt encode_table)

-- A branch on a computed test, each side with its own proof.
IsPiece-if :
    (left : ℕ) (b : Bool) (x y : Round)
    → IsPiece left x.piece
    → IsPiece left y.piece
    → IsPiece left (if b then x else y).piece
IsPiece-if left true x y px py = px
IsPiece-if left false x y px py = py

letter-IsPiece :
    (left next_space : ℕ) (random : Random) → IsPiece left (letter next_space random).piece
unfolding letter
letter-IsPiece left next_space random = ground arith

any_ascii-IsPiece :
    (left next_space : ℕ) (random : Random) → IsPiece left (any_ascii next_space random).piece
unfolding any_ascii
any_ascii-IsPiece left next_space random =
    IsPiece-if left ((random_next random).0 % 32 == 0) _ (letter next_space (random_next random).1)
      (printable (random_next (random_next random).1).0)
      (letter-IsPiece left next_space (random_next random).1)
  where
    printable : (s : ℕ) → IsPiece left (one (33 + s % 94))
    printable s = omega arith

non_ascii-IsPiece :
    (is_ascii : Bool) (left next_space : ℕ) (random : Random)
    → IsPiece left (non_ascii is_ascii left next_space random).piece
unfolding non_ascii
non_ascii-IsPiece true left next_space random = any_ascii-IsPiece left next_space random
non_ascii-IsPiece false left next_space random = elim (Bool-cases (leb 2 left)) [
  | inr short ↦ rw short (any_ascii-IsPiece left next_space random)
  | inl room ↦ rw room (
      IsPiece-if left ((random_next random).0 % 4 == 0) _
        (any_ascii next_space (random_next random).1)
        (encode-IsPiece left ((random_next (random_next random).1).0 % 0x5F) (leb→le 2 left room)
          (mod-lt _ (omega arith)))
        (any_ascii-IsPiece left next_space (random_next random).1))
]

special-IsPiece : (left k : ℕ) → IsPiece left (one (special k))
special-IsPiece left zero = omega arith
special-IsPiece left (suc zero) = omega arith
special-IsPiece left (suc (suc k)) = omega arith

escaped-IsPiece :
    (is_ascii : Bool) (left next_space : ℕ) (random : Random)
    → IsPiece left (escaped is_ascii left next_space random).piece
unfolding escaped
escaped-IsPiece is_ascii left next_space random =
    IsPiece-if left ((random_next random).0 % 128 == 0) _
      (non_ascii is_ascii left next_space (random_next random).1)
      (special-IsPiece left ((random_next (random_next random).1).0 % 3))
      (non_ascii-IsPiece is_ascii left next_space (random_next random).1)

round-IsPiece :
    (is_ascii spaces : Bool) (left next_space : ℕ) (random : Random)
    → IsPiece left (string_round is_ascii spaces left next_space random).piece
unfolding string_round
round-IsPiece is_ascii spaces left next_space random =
    let after = if spaces then next_space - 1 else next_space in
    IsPiece-if left (spaces && next_space == 0) _ (escaped is_ascii left after random) (omega arith)
      (escaped-IsPiece is_ascii left after random)

-- The loop writes UTF-8 of the length that is left.
abbrev IsText : ℕ → List ℕ → Type 0
IsText n s = IsUtf8 s × (length s ≡ n)

IsText-one :
    {a : ℕ} {n : ℕ} {s : List ℕ} → (1 ≤ a) × (a < 0x80) → IsText n s → IsText (suc n) (a ∷ s)
IsText-one h t = (ascii h.0 h.1 t.0, ap suc t.1)

last-IsText :
    (p : Piece) (random : Random)
    → IsPiece 1 p
    → IsText 1
        (elim p as (λ _. List ℕ × Random) [
          | one a ↦ (a ∷ [], random)
          | two a b ↦ (a ∷ b ∷ [], random)
        ]).0
last-IsText (one a) random h = IsText-one h (done, refl)
last-IsText (two a b) random h = absurd (omega arith)

piece-IsText :
    (n : ℕ) (p : Piece) (after_one after_two : List ℕ × Random)
    → IsPiece (suc (suc n)) p
    → IsText (suc n) after_one.0
    → IsText n after_two.0
    → IsText
        (suc (suc n))
        (elim p as (λ _. List ℕ × Random) [
          | one a ↦ (a ∷ after_one.0, after_one.1)
          | two a b ↦ (a ∷ b ∷ after_two.0, after_two.1)
        ]).0
piece-IsText n (one a) after_one after_two h t₁ t₂ = IsText-one h t₁
piece-IsText n (two a b) after_one after_two h t₁ t₂ =
    (pair h.1 h.2 h.3 h.4 t₂.0, omega (arith, t₂.1))

string_bytes-IsText :
    (is_ascii spaces : Bool) (left next_space : ℕ) (random : Random)
    → IsText left (string_bytes is_ascii spaces left next_space random).0
unfolding string_bytes
string_bytes-IsText is_ascii spaces zero next_space random = (done, refl)
string_bytes-IsText is_ascii spaces (suc zero) next_space random =
    let round = string_round is_ascii spaces 1 next_space random in
    last-IsText round.piece round.random (round-IsPiece is_ascii spaces 1 next_space random)
string_bytes-IsText is_ascii spaces (suc (suc n)) next_space random =
    let round = string_round is_ascii spaces (suc (suc n)) next_space random in
    piece-IsText n round.piece (string_bytes is_ascii spaces (suc n) round.next_space round.random)
      (string_bytes is_ascii spaces n round.next_space round.random)
      (round-IsPiece is_ascii spaces (suc (suc n)) next_space random)
      (string_bytes-IsText is_ascii spaces (suc n) round.next_space round.random)
      (string_bytes-IsText is_ascii spaces n round.next_space round.random)

-- From any state and for any length, `random_string` writes exactly that many bytes: a two-byte
-- character never runs past the end. They are UTF-8 text of ASCII characters but null and of characters
-- from U+0080 to U+00FF.
pub random_string-IsUtf8 :
    (random : Random) (n : ℕ)
    → IsUtf8 (random_string random n).0 × (length (random_string random n).0 ≡ n)
unfolding random_string
random_string-IsUtf8 random n = string_bytes-IsText _ _ n _ _

pub IsUtf8-IsCharacter : {s : List ℕ} → IsUtf8 s → All IsCharacter s
IsUtf8-IsCharacter done = tt
IsUtf8-IsCharacter (ascii p q t) = ((p, omega arith), IsUtf8-IsCharacter t)
IsUtf8-IsCharacter (pair p q r s t) =
    ((omega arith, omega arith), ((omega arith, omega arith), IsUtf8-IsCharacter t))
