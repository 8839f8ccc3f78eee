-- ===== src/HashObject/Tests.antt =====
-- Small objects.
use schemaless_benchmarks.Base.{[], ◌∷◌, ◌≡◌, refl, true, negsuc, arith}
use schemaless_benchmarks.Hash.{
  hash_initial_value, hash_u32, hash_u64, hash_i64, hash_bool, hash_str, hash_nil,
}
use schemaless_benchmarks.Object.{
  Object, nil, bool, int, uint, array, map, no_elements, element, no_entries, entry,
}
use schemaless_benchmarks.Object.Valid.{IsValid}
use schemaless_benchmarks.HashObject.{hash_object}
use schemaless_benchmarks.HashObject.Laws.{hash_object-injective}

abbrev pub sample : Object
sample = map (
    entry (b'q' ∷ b'b' ∷ []) (int (negsuc 124))
      (entry (b'o' ∷ []) (array (element nil (element (bool true) no_elements))) no_entries))

abbrev unsigned : Object
unsigned = array (element (uint 7) no_elements)

sample_hash : hash_object sample 15373 ≡ 3054470648
unfolding hash_object hash_u32 hash_u64 hash_i64 hash_bool hash_str hash_nil
sample_hash = refl

sample-IsValid : IsValid sample
unfolding IsValid
sample-IsValid = omega arith

hash_object-injective_example : hash_initial_value ≡ 15373
hash_object-injective_example =
    hash_object-injective sample hash_initial_value 15373 sample-IsValid (omega arith) (omega arith)
      refl
