-- ===== src/Hash/Tests.antt =====
-- Strings of several lengths.
use mathlib.Core.List.{foldl}
use schemaless_benchmarks.Base.{◌≡◌, refl, [], ◌∷◌, List, ℕ, arith}
use schemaless_benchmarks.Hash.{hash_u32, hash_bytes, hash_str}
use schemaless_benchmarks.Hash.Words.{hash_str-words}

abbrev hello : List ℕ
hello = b'h' ∷ b'e' ∷ b'l' ∷ b'l' ∷ b'o' ∷ []

hello_hash : hash_str 1 hello ≡ 555770653
unfolding hash_str hash_bytes hash_u32
hello_hash = refl

hash_str-words_example : hash_str 1 hello ≡ foldl hash_u32 1 (5 ∷ 0x6c6c6568 ∷ 0x6f ∷ [])
hash_str-words_example = hash_str-words 1 hello (omega arith)
