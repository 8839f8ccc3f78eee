-- ===== src/Bson/Iter.antt =====
-- src/libbson/libbson-iter.c: the hash of a BSON document.
pub mod Laws
pub mod Timed
use schemaless_benchmarks.Base.{
  ℕ, Bool, true, false, ◌&&◌, Option, none, some, List, [], ◌∷◌, length, u32, if◌then◌else◌, ◌==◌,
  ℤ,
}
use schemaless_benchmarks.Hash.{
  hash_bool, hash_double, hash_i64, hash_initial_value, hash_nil, hash_str, hash_u32,
}
use schemaless_benchmarks.Object
use schemaless_benchmarks.Object.{Object}
use schemaless_benchmarks.Benchmark.Go.{Test}
use schemaless_benchmarks.Benchmark.Load.{
  Libc, Holding, load_data_file, assign_file, free_file, file_test, format_bson,
}
use schemaless_benchmarks.Benchmark.{
  Malloc, benchmark_in_situ_copy, Held, copied, benchmark_in_situ_free, made, destroyed, ending,
}
use schemaless_benchmarks.Parser.{
  Hashing, update, fail, succeed, ignore, ◌>>◌, Tree, Items, Members, leaf, list, object, no_items,
  item, no_members, member, item_count, member_count, c_str,
}

-- The type of an element without children, with its value. `other` is each type that the `switch` leaves
-- to its default, and an array or a document that `bson_iter_recurse` refuses.
pub data Leaf : Type 0 where
  null : Leaf
  bool : Bool → Leaf
  int32 : ℤ → Leaf
  int64 : ℤ → Leaf
  double : ℕ → Leaf
  utf8 : List ℕ → Leaf
  other : Leaf

-- `hash_value` is the `switch` in the loop; `hash_array` and `hash_document` are `hash_bson` with its
-- argument `is_array`, and `loop_array` and `loop_document` their loops. The count of the loop is that of
-- the elements. The result for an array or a document inside is thrown away.
unfoldable mutual
  pub hash_value : Tree Leaf → Hashing
  hash_value (leaf null) = update hash_nil
  hash_value (leaf (bool x)) = update (λ h. hash_bool h x)
  hash_value (leaf (int32 x)) = update (λ h. hash_i64 h x)
  hash_value (leaf (int64 x)) = update (λ h. hash_i64 h x)
  hash_value (leaf (double x)) = update (λ h. hash_double h x)
  hash_value (leaf (utf8 x)) = update (λ h. hash_str h x)
  hash_value (leaf other) = fail
  hash_value (list ts) = ignore (loop_array ts >> update (λ h. hash_u32 h (u32 (item_count ts))))
  hash_value (object ms) =
      ignore (loop_document ms >> update (λ h. hash_u32 h (u32 (member_count ms))))

  pub loop_array : Items Leaf → Hashing
  loop_array no_items = succeed
  loop_array (item t ts) = do hash_value t; loop_array ts

  pub loop_document : Members Leaf → Hashing
  loop_document no_members = succeed
  loop_document (member k t ms) = do
    update (λ h. hash_str h (c_str k))
    do hash_value t; loop_document ms

abbrev pub hash_array : Items Leaf → Hashing
hash_array ts = loop_array ts >> update (λ h. hash_u32 h (u32 (item_count ts)))

abbrev pub hash_document : Members Leaf → Hashing
hash_document ms = loop_document ms >> update (λ h. hash_u32 h (u32 (member_count ms)))

-- The elements without their keys.
abbrev pub elements_of : Members Leaf → Items Leaf
elements_of no_members = no_items
elements_of (member k t ms) = item t (elements_of ms)

-- Whether the key is the string "0".
abbrev pub is_zero : List ℕ → Bool
is_zero (c ∷ []) = c == b'0'
is_zero _ = false

-- The root document does not say whether it is an array: it is taken for one if its first key is "0".
abbrev pub is_array : Members Leaf → Bool
is_array no_members = false
is_array (member k t ms) = is_zero (c_str k)

-- `bson_init_static` and `bson_iter_init` of the copy, up to the size of the file. The hash starts anew.
unfoldable pub run_test :
    Malloc → (List ℕ → ℕ → Option (Members Leaf)) → List ℕ → ℕ → Held → Bool × ℕ × Held
run_test malloc bson_init file_data hash held = elim (benchmark_in_situ_copy malloc file_data) [
  | none ↦ (false, hash, held)
  | some data_copy ↦ elim (bson_init data_copy (length file_data)) [
    | none ↦ (false, hash, benchmark_in_situ_free (destroyed (made (copied held))))
    | some root ↦
        ending
          (if is_array root
            then hash_array (elements_of root) hash_initial_value
            else hash_document root hash_initial_value)
          (benchmark_in_situ_free (destroyed (made (copied held))))
  ]
]

-- The object that a leaf stands for, and the bytes of a key.
abbrev pub leaf_value : Leaf → Option Object
leaf_value null = some Object.nil
leaf_value (bool x) = some (Object.bool x)
leaf_value (int32 x) = some (Object.int x)
leaf_value (int64 x) = some (Object.int x)
leaf_value (double x) = some (Object.double x)
leaf_value (utf8 x) = some (Object.str x)
leaf_value other = none

abbrev pub key : List ℕ → List ℕ
key k = c_str k

-- The test for `go`. `is_benchmark` returns true.
unfoldable pub setup_test : Libc → ℕ → Holding → Bool × Holding
unfolding load_data_file
setup_test libc object_size w = assign_file (load_data_file libc format_bson object_size w)

unfoldable pub teardown_test : Holding → Holding
teardown_test w = free_file w

unfoldable pub test : Libc → Malloc → (List ℕ → ℕ → Option (Members Leaf)) → Test Holding
unfolding setup_test teardown_test
test libc malloc parse = file_test (setup_test libc) (run_test malloc parse) teardown_test
