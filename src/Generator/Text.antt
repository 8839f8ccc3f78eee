-- ===== src/Generator/Text.antt =====
-- src/common/generator.c: `random_key` and `random_string`. A string is its bytes up to the
-- terminating null, and `malloc` is taken to succeed, as the code does.
pub mod Utf8
pub mod Keys
pub mod State
use schemaless_benchmarks.Base.{
  ℕ, zero, suc, ◌+◌, ◌-◌, ◌%◌, ◌^◌, Bool, true, false, ◌&&◌, ◌||◌, not, List, [], ◌∷◌, bit_and,
  bit_or, ltb, leb, ◌==◌, if◌then◌else◌, ◌>>>◌,
}
use schemaless_benchmarks.Random.{Random, random_next}

-- The loop of `random_key`, with the number of letters to go.
unfoldable pub key_letters : ℕ → Random → List ℕ × Random
key_letters zero random = ([], random)
key_letters (suc n) random =
    let (r, random₁) = random_next random in
    let (rest, random₂) = key_letters n random₁ in ((b'a' + r % (b'z' - b'a' + 1)) ∷ rest, random₂)

unfoldable pub random_key : Random → List ℕ × Random
random_key random = let (r, random₁) = random_next random in key_letters (r % 9 + 2) random₁

-- What one round of the loop of `random_string` writes: one byte, or two.
pub data Piece : Type 0 where
  one : ℕ → Piece
  two : ℕ → ℕ → Piece

pub record Round : Type 0 where
  pub piece : Piece
  pub next_space : ℕ
  pub random : Random

-- `specials`
abbrev pub special : ℕ → ℕ
special zero = b'\n'
special (suc zero) = b'"'
special _ = b'\\'

-- A letter, once in a while a capital one.
unfoldable pub letter : ℕ → Random → Round
letter next_space random =
    let (r, random₁) = random_next random in
    let c = b'a' + r % (b'z' - b'a' + 1) in
    let (s, random₂) = random_next random₁ in
    record {
      piece = one (if s % 32 == 0 then c - (b'a' - b'A') else c);
      next_space = next_space;
      random = random₂;
    }

-- Any printable ASCII character, or a letter.
unfoldable pub any_ascii : ℕ → Random → Round
any_ascii next_space random =
    let (r, random₁) = random_next random in
    let (s, random₂) = random_next random₁ in
    if r % 32 == 0
    then record { piece = one (33 + s % 94); next_space = next_space; random = random₂ }
    else letter next_space random₁

-- The two bytes of a code point of the Latin-1 supplement.
unfoldable pub encode : ℕ → Piece
encode codepoint =
    two (bit_or 0xC0 (bit_and (codepoint >>> 6) 0x1F)) (bit_or 0x80 (bit_and codepoint 0x3F))

-- A character outside ASCII, where two bytes are left; `&&` draws no number if they are not.
unfoldable pub non_ascii : Bool → ℕ → ℕ → Random → Round
non_ascii ascii left next_space random =
    let (r, random₁) = random_next random in
    let (s, random₂) = random_next random₁ in
    if not ascii && leb 2 left
    then (if r % 4 == 0
        then record { piece = encode (0xA1 + s % 0x5F); next_space = next_space; random = random₂ }
        else any_ascii next_space random₁)
    else any_ascii next_space random

-- A character that formats escape.
unfoldable pub escaped : Bool → ℕ → ℕ → Random → Round
escaped ascii left next_space random =
    let (r, random₁) = random_next random in
    let (s, random₂) = random_next random₁ in
    if r % 128 == 0
    then record { piece = one (special (s % 3)); next_space = next_space; random = random₂ }
    else non_ascii ascii left next_space random₁

-- One round of the loop with `left` bytes to go. `next_space--` is made only where `spaces` is set,
-- and at 0 the counter is drawn anew.
unfoldable pub string_round : Bool → Bool → ℕ → ℕ → Random → Round
string_round ascii spaces left next_space random =
    let (r, random₁) = random_next random in
    if spaces && next_space == 0
    then record { piece = one b' '; next_space = r % 8 + 2; random = random₁ }
    else escaped ascii left (if spaces then next_space - 1 else next_space) random

-- The loop, with the number of bytes to go. A round that writes two bytes where one is left would
-- write past the end.
unfoldable pub string_bytes : Bool → Bool → ℕ → ℕ → Random → List ℕ × Random
string_bytes ascii spaces zero next_space random = ([], random)
string_bytes ascii spaces (suc zero) next_space random =
    let round = string_round ascii spaces 1 next_space random in
    elim round.piece [ one a ↦ (a ∷ [], round.random) | two a b ↦ (a ∷ b ∷ [], round.random) ]
string_bytes ascii spaces (suc (suc n)) next_space random =
    let round = string_round ascii spaces (suc (suc n)) next_space random in
    elim round.piece [
      | one a ↦
          let rest = string_bytes ascii spaces (suc n) round.next_space round.random in
          (a ∷ rest.0, rest.1)
      | two a b ↦
          let rest = string_bytes ascii spaces n round.next_space round.random in
          (a ∷ b ∷ rest.0, rest.1)
    ]

-- `length > 50 || …` draws a number only for a short string.
unfoldable pub random_string : Random → ℕ → List ℕ × Random
random_string random length =
    let (r, random₁) = random_next random in
    let ascii = not (r % 4 == 0) in
    let (s, random₂) = random_next random₁ in
    let long = ltb 50 length in
    let spaces = long || not (s % 4 == 0) in
    let random₃ = if long then random₁ else random₂ in
    let (t, random₄) = random_next random₃ in string_bytes ascii spaces length (t % 8 + 2) random₄
