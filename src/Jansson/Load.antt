-- ===== src/Jansson/Load.antt =====
-- src/jansson/jansson-load.c: the hash of a `json_t`, built without PRESERVE_ORDER.
pub mod Laws
pub mod Timed
use schemaless_benchmarks.Base.{ℕ, Bool, true, false, Option, none, some, List, length, u32, ℤ}
use schemaless_benchmarks.Hash.{hash_bool, hash_double, hash_i64, hash_nil, hash_str, hash_u32}
use schemaless_benchmarks.Object
use schemaless_benchmarks.Object.{Object}
use schemaless_benchmarks.Benchmark.Go.{Test}
use schemaless_benchmarks.Benchmark.Load.{
  Libc, Holding, load_data_file, assign_file, free_file, file_test, format_json,
}
use schemaless_benchmarks.Benchmark.{
  Malloc, benchmark_in_situ_copy, Held, copied, benchmark_in_situ_free, made, destroyed, ending,
}
use schemaless_benchmarks.Parser.{
  Hashing, update, ignore, fail, succeed, ◌>>◌, Tree, Items, Members, leaf, list, object, no_items,
  item, no_members, member, item_count, member_count, c_str,
}

-- The type of a `json_t` without children, with its value: with arrays and objects these are all the
-- types that the library has. Keys are null-terminated; the members of an object stand in the order in
-- which the library iterates over them.
pub data Leaf : Type 0 where
  null : Leaf
  true_value : Leaf
  false_value : Leaf
  real : ℕ → Leaf
  string : List ℕ → Leaf
  integer : ℤ → Leaf

-- The result of a member's hash is thrown away.
unfoldable mutual
  pub hash_json : Tree Leaf → Hashing
  hash_json (leaf null) = update hash_nil
  hash_json (leaf true_value) = update (λ h. hash_bool h true)
  hash_json (leaf false_value) = update (λ h. hash_bool h false)
  hash_json (leaf (real x)) = update (λ h. hash_double h x)
  hash_json (leaf (string x)) = update (λ h. hash_str h x)
  hash_json (leaf (integer x)) = update (λ h. hash_i64 h x)
  hash_json (list ts) = do hash_array ts; update (λ h. hash_u32 h (u32 (item_count ts)))
  hash_json (object ms) = do hash_members ms; update (λ h. hash_u32 h (u32 (member_count ms)))

  pub hash_array : Items Leaf → Hashing
  hash_array no_items = succeed
  hash_array (item t ts) = do hash_json t; hash_array ts

  pub hash_members : Members Leaf → Hashing
  hash_members no_members = succeed
  hash_members (member k t ms) = do
    update (λ h. hash_str h (c_str k))
    do ignore (hash_json t); hash_members ms

-- `json_loadb` of the copy, up to the size of the file.
unfoldable pub run_test :
    Malloc → (List ℕ → ℕ → Option (Tree Leaf)) → List ℕ → ℕ → Held → Bool × ℕ × Held
run_test malloc json_loadb file_data hash held = elim (benchmark_in_situ_copy malloc file_data) [
  | none ↦ (false, hash, held)
  | some data_copy ↦ elim (json_loadb data_copy (length file_data)) [
    | none ↦ (false, hash, benchmark_in_situ_free (copied held))
    | some root ↦
        ending (hash_json root hash) (benchmark_in_situ_free (destroyed (made (copied held))))
  ]
]

-- The object that a leaf stands for, and the bytes of a key.
abbrev pub leaf_value : Leaf → Option Object
leaf_value null = some Object.nil
leaf_value true_value = some (Object.bool true)
leaf_value false_value = some (Object.bool false)
leaf_value (real x) = some (Object.double x)
leaf_value (string x) = some (Object.str x)
leaf_value (integer x) = some (Object.int x)

abbrev pub key : List ℕ → List ℕ
key k = c_str k

-- The test for `go`. `is_benchmark` returns true.
unfoldable pub setup_test : Libc → ℕ → Holding → Bool × Holding
unfolding load_data_file
setup_test libc object_size w = assign_file (load_data_file libc format_json object_size w)

unfoldable pub teardown_test : Holding → Holding
teardown_test w = free_file w

unfoldable pub test : Libc → Malloc → (List ℕ → ℕ → Option (Tree Leaf)) → Test Holding
unfolding setup_test teardown_test
test libc malloc parse = file_test (setup_test libc) (run_test malloc parse) teardown_test
