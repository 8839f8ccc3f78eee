-- ===== src/Hash/Words.antt =====
-- What `hash_str` computes, said without its loop: the length and then the string's little-endian
-- 32-bit words, the last one padded with zeros, are mixed in one after the other.
use mathlib.Core.List.{foldl}
use schemaless_benchmarks.Base.{
  ℕ, ◌+◌, ◌*◌, ◌^◌, ◌<◌, ◌≡◌, refl, ap, ◌∙◌, List, [], ◌∷◌, arith, All, bit_or, length, u32, ◌<<<◌,
}
use schemaless_benchmarks.Base.Bits.{zero-bit_or, bit_or-eq-add}
use schemaless_benchmarks.Hash.{hash_u32, hash_bytes, hash_str}

abbrev pub IsByte : ℕ → Type 0
IsByte b = b < 256

abbrev pub IsBytes : List ℕ → Type 0
IsBytes s = All IsByte s

-- The number whose base-256 digits are the bytes, the lowest first.
abbrev pub le_value : List ℕ → ℕ
le_value [] = 0
le_value (b ∷ s) = b + 256 * le_value s

abbrev pub words : List ℕ → List ℕ
words [] = []
words (a ∷ []) = le_value (a ∷ []) ∷ []
words (a ∷ b ∷ []) = le_value (a ∷ b ∷ []) ∷ []
words (a ∷ b ∷ c ∷ []) = le_value (a ∷ b ∷ c ∷ []) ∷ []
words (a ∷ b ∷ c ∷ d ∷ s) = le_value (a ∷ b ∷ c ∷ d ∷ []) ∷ words s

word_2 : (a b : ℕ) → a < 256 → bit_or (bit_or 0 (b <<< 8)) a ≡ a + 256 * b
word_2 a b p = omega (arith, zero-bit_or (b <<< 8), bit_or-eq-add 8 (bit_or 0 (b <<< 8)) a)

word_3 :
    (a b c : ℕ)
    → a < 256
    → b < 256
    → bit_or (bit_or (bit_or 0 (c <<< 16)) (b <<< 8)) a ≡ a + 256 * (b + 256 * c)
word_3 a b c p q =
    rw
      (
        zero-bit_or (c <<< 16),
        bit_or-eq-add 16 (c <<< 16) (b <<< 8) (omega arith) (omega arith),
        bit_or-eq-add 8 (c <<< 16 + b <<< 8) a (omega arith) p,
      )
      (omega arith)

word_4 :
    (a b c d : ℕ)
    → a < 256
    → b < 256
    → c < 256
    → bit_or (bit_or (bit_or (d <<< 24) (c <<< 16)) (b <<< 8)) a
      ≡ a + 256 * (b + 256 * (c + 256 * d))
word_4 a b c d p q r =
    rw
      (
        bit_or-eq-add 24 (d <<< 24) (c <<< 16) (omega arith) (omega arith),
        bit_or-eq-add 16 (d <<< 24 + c <<< 16) (b <<< 8) (omega arith) (omega arith),
        bit_or-eq-add 8 (d <<< 24 + c <<< 16 + b <<< 8) a (omega arith) p,
      )
      (omega arith)

hash_bytes-words :
    (s : List ℕ) (hash : ℕ) → IsBytes s → hash_bytes hash s ≡ foldl hash_u32 hash (words s)
unfolding hash_bytes
hash_bytes-words [] hash h = refl
hash_bytes-words (a ∷ []) hash h = ap (hash_u32 hash) (omega (arith, zero-bit_or a))
hash_bytes-words (a ∷ b ∷ []) hash h = ap (hash_u32 hash) (omega (arith, word_2 a b h.0))
hash_bytes-words (a ∷ b ∷ c ∷ []) hash h =
    ap (hash_u32 hash) (omega (arith, word_3 a b c h.0 h.1.0))
hash_bytes-words (a ∷ b ∷ c ∷ d ∷ s) hash h =
    ap (λ w. hash_bytes (hash_u32 hash w) s) (omega (arith, word_4 a b c d h.0 h.1.0 h.1.1.0))
    ∙ hash_bytes-words s (hash_u32 hash (le_value (a ∷ b ∷ c ∷ d ∷ []))) h.1.1.1.1

-- For a string of bytes, `hash_str` is the hash, one `hash_u32` after another, of the string's length
-- and of its little-endian words.
pub hash_str-words :
    (hash : ℕ) (s : List ℕ)
    → IsBytes s
    → hash_str hash s ≡ foldl hash_u32 hash (u32 (length s) ∷ words s)
unfolding hash_str
hash_str-words hash s h = hash_bytes-words s (hash_u32 hash (u32 (length s))) h

pub words-lt : (s : List ℕ) → IsBytes s → All (λ w. w < 2 ^ 32) (words s)
words-lt [] h = tt
words-lt (a ∷ []) h = omega arith
words-lt (a ∷ b ∷ []) h = omega arith
words-lt (a ∷ b ∷ c ∷ []) h = omega arith
words-lt (a ∷ b ∷ c ∷ d ∷ s) h = (omega arith, words-lt s h.1.1.1.1)
