-- ===== src/Generator/Kind.antt =====
-- src/common/generator.c: `random_type`, which chooses what an object is, and how long.
pub mod Range
use schemaless_benchmarks.Base.{
  ℕ, zero, suc, ◌+◌, ◌-◌, ◌*◌, ◌/◌, ◌%◌, ◌^◌, Bool, true, false, Option, none, some, bit_and, ltb,
  leb, ◌==◌, u32, if◌then◌else◌, ◌<<<◌,
}
use schemaless_benchmarks.Random.{Random, random_next, random_inverse, mod?}

-- `type_t`
pub data Kind : Type 0 where
  nil bool double int uint str array map : Kind

-- A type with its `*length`, and the state after the draws for it.
pub record Draw : Type 0 where
  pub kind : Kind
  pub length : ℕ
  pub random : Random

-- `while (d-- > 0) odds <<= 1;` on a 32-bit word.
unfoldable pub double_odds : ℕ → ℕ → ℕ
double_odds zero odds = odds
double_odds (suc d) odds = double_odds d (u32 (odds <<< 1))

-- `while (size-- > depth) len *= 2;`: `size - depth` rounds. The sizes are at most 5.
unfoldable pub double_length : ℕ → ℕ → ℕ
double_length zero len = len
double_length (suc rounds) len = double_length rounds (len * 2)

-- An array or a map, with a length near the size.
unfoldable pub random_container : ℕ → ℕ → Random → Option Draw
random_container size depth random =
    let (r, random₁) = random_next random in
    let (s, random₂) = random_next random₁ in
    let kind = if bit_and r 1 == 0 then array else map in
    let len = double_length (size - depth) 3 in
    elim (mod? s len) [
      | none ↦ none
      | some extra ↦
          let total = len + extra in
          some (record {
            kind = kind;
            length = if bit_and r 1 == 0 then total else total / 2;
            random = random₂;
          })
    ]

-- The `switch`; its cases 7 and 2 are a string.
abbrev pub switch : ℕ → Kind
switch zero = nil
switch (suc zero) = bool
switch (suc (suc zero)) = str
switch (suc (suc (suc zero))) = uint
switch (suc (suc (suc (suc zero)))) = int
switch (suc (suc (suc (suc (suc zero))))) = int
switch (suc (suc (suc (suc (suc (suc zero)))))) = int
switch _ = str

-- The length of a string is drawn.
unfoldable pub with_length : Kind → Random → Option Draw
with_length str random = elim (random_inverse random 1000) [
  | none ↦ none
  | some (length, random₁) ↦ some (record { kind = str; length = length; random = random₁ })
]
with_length kind random = some (record { kind = kind; length = 0; random = random })

-- A value without children.
unfoldable pub random_scalar : Random → Option Draw
random_scalar random =
    let (r, random₁) = random_next random in
    let (s, random₂) = random_next random₁ in
    if r % 64 == 0
    then some (record { kind = double; length = 0; random = random₁ })
    else with_length (switch (s % 8)) random₂

-- `depth < 31 && random_next(random) % odds <= 2` draws no number at a depth of 31.
unfoldable pub random_type : ℕ → ℕ → Random → Option Draw
random_type size depth random =
    let (r, random₁) = random_next random in
    if ltb depth 31
    then elim (mod? r (double_odds depth 2)) [
      | none ↦ none
      | some share ↦
          if leb share 2 then random_container size depth random₁ else random_scalar random₁
    ]
    else random_scalar random
