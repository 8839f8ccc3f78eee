-- ===== src/Hash.antt =====
-- src/common/hash.h: the 32-bit multiplicative hash that every benchmark reports.
pub mod Laws
pub mod Words
mod Tests
use schemaless_benchmarks.Base.{
  ℕ, suc, ◌+◌, ◌*◌, ◌^◌, Bool, true, false, List, [], ◌∷◌, bit_or, bit_xor, length, if◌then◌else◌,
  u32, ◌<<<◌, ◌>>>◌, ℤ, to_unsigned,
}

-- HASH_INITIAL_VALUE
abbrev pub hash_initial_value : ℕ
hash_initial_value = 15373

-- `hash * 31 ^ val`: `*` binds tighter than `^`, and the product wraps.
unfoldable pub hash_u32 : ℕ → ℕ → ℕ
hash_u32 hash val = bit_xor (u32 (hash * 31)) val

unfoldable pub hash_u64 : ℕ → ℕ → ℕ
hash_u64 hash val = hash_u32 (hash_u32 hash (u32 (val >>> 32))) (u32 val)

-- The widening conversions of an unsigned value change nothing.
unfoldable pub hash_u8 : ℕ → ℕ → ℕ
hash_u8 hash val = hash_u32 hash val

unfoldable pub hash_u16 : ℕ → ℕ → ℕ
hash_u16 hash val = hash_u32 hash val

-- A signed value is cast to the unsigned type of its width first.
unfoldable pub hash_i8 : ℕ → ℤ → ℕ
hash_i8 hash val = hash_u8 hash (to_unsigned 8 val)

unfoldable pub hash_i16 : ℕ → ℤ → ℕ
hash_i16 hash val = hash_u16 hash (to_unsigned 16 val)

unfoldable pub hash_i32 : ℕ → ℤ → ℕ
hash_i32 hash val = hash_u32 hash (to_unsigned 32 val)

unfoldable pub hash_i64 : ℕ → ℤ → ℕ
hash_i64 hash val = hash_u64 hash (to_unsigned 64 val)

unfoldable pub hash_bool : ℕ → Bool → ℕ
hash_bool hash val = hash_u32 hash (if val then 1 else 0)

-- The value is skipped: a prime is mixed in. A double is its bit pattern.
unfoldable pub hash_double : ℕ → ℕ → ℕ
hash_double hash val = hash_u32 hash 43013

unfoldable pub hash_float : ℕ → ℕ → ℕ
unfolding hash_double
hash_float hash val = hash_double hash val

-- The loop over four bytes at a time, and the `switch` over the 0 to 3 bytes that are left.
unfoldable pub hash_bytes : ℕ → List ℕ → ℕ
hash_bytes hash [] = hash
hash_bytes hash (a ∷ []) = hash_u32 hash (bit_or 0 a)
hash_bytes hash (a ∷ b ∷ []) = hash_u32 hash (bit_or (bit_or 0 (b <<< 8)) a)
hash_bytes hash (a ∷ b ∷ c ∷ []) = hash_u32 hash (bit_or (bit_or (bit_or 0 (c <<< 16)) (b <<< 8)) a)
hash_bytes hash (a ∷ b ∷ c ∷ d ∷ rest) =
    hash_bytes (hash_u32 hash (bit_or (bit_or (bit_or (d <<< 24) (c <<< 16)) (b <<< 8)) a)) rest

-- The string is its bytes, and `len` their number.
unfoldable pub hash_str : ℕ → List ℕ → ℕ
unfolding hash_bytes
hash_str hash str = hash_bytes (hash_u32 hash (u32 (length str))) str

-- "nil"
abbrev pub nil_name : List ℕ
nil_name = b'n' ∷ b'i' ∷ b'l' ∷ []

unfoldable pub hash_nil : ℕ → ℕ
unfolding hash_str
hash_nil hash = hash_str (hash_u32 hash 0) nil_name
