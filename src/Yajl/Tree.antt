-- ===== src/Yajl/Tree.antt =====
-- src/yajl/yajl-tree.c: the hash of a `yajl_val`.
pub mod Laws
pub mod Timed
use schemaless_benchmarks.Base.{ℕ, Bool, true, false, Option, none, some, List, length, u32, ℤ}
use schemaless_benchmarks.Hash.{hash_bool, hash_double, hash_i64, hash_nil, hash_str, hash_u32}
use schemaless_benchmarks.Object
use schemaless_benchmarks.Object.{Object}
use schemaless_benchmarks.Benchmark.Go.{Test}
use schemaless_benchmarks.Benchmark.Load.{
  Libc, Holding, load_data_file, assign_file, free_file, file_test, format_json,
}
use schemaless_benchmarks.Benchmark.{
  Malloc, benchmark_in_situ_copy, Held, copied, benchmark_in_situ_free, made, destroyed, ending,
}
use schemaless_benchmarks.Parser.{
  Hashing, update, fail, succeed, ◌>>◌, Tree, Items, Members, leaf, list, object, no_items, item,
  no_members, member, item_count, member_count, c_str,
}

-- The type of a `yajl_val` without children. A number is an integer, a double, or one that is
-- neither (`big_number`). `other` is each type that the `switch` leaves to its default. Strings and
-- keys are null-terminated: what is hashed ends before the first null.
pub data Leaf : Type 0 where
  null : Leaf
  true_value : Leaf
  false_value : Leaf
  integer : ℤ → Leaf
  double : ℕ → Leaf
  big_number : Leaf
  string : List ℕ → Leaf
  other : Leaf

unfoldable mutual
  pub hash_node : Tree Leaf → Hashing
  hash_node (leaf null) = update hash_nil
  hash_node (leaf true_value) = update (λ h. hash_bool h true)
  hash_node (leaf false_value) = update (λ h. hash_bool h false)
  hash_node (leaf (integer x)) = update (λ h. hash_i64 h x)
  hash_node (leaf (double x)) = update (λ h. hash_double h x)
  hash_node (leaf big_number) = fail
  hash_node (leaf (string x)) = update (λ h. hash_str h (c_str x))
  hash_node (leaf other) = fail
  hash_node (list ts) = do hash_array ts; update (λ h. hash_u32 h (u32 (item_count ts)))
  hash_node (object ms) = do hash_members ms; update (λ h. hash_u32 h (u32 (member_count ms)))

  pub hash_array : Items Leaf → Hashing
  hash_array no_items = succeed
  hash_array (item t ts) = do hash_node t; hash_array ts

  pub hash_members : Members Leaf → Hashing
  hash_members no_members = succeed
  hash_members (member k t ms) = do
    update (λ h. hash_str h (c_str k))
    do hash_node t; hash_members ms

-- `yajl_tree_parse` of the copy, which is null-terminated.
unfoldable pub run_test :
    Malloc → (List ℕ → Option (Tree Leaf)) → List ℕ → ℕ → Held → Bool × ℕ × Held
run_test malloc yajl_tree_parse file_data hash held =
    elim (benchmark_in_situ_copy malloc file_data) [
      | none ↦ (false, hash, held)
      | some data_copy ↦ elim (yajl_tree_parse data_copy) [
        | none ↦ (false, hash, benchmark_in_situ_free (copied held))
        | some node ↦
            ending (hash_node node hash) (benchmark_in_situ_free (destroyed (made (copied held))))
      ]
    ]

-- The object that a leaf stands for, and the bytes of a key.
abbrev pub leaf_value : Leaf → Option Object
leaf_value null = some Object.nil
leaf_value true_value = some (Object.bool true)
leaf_value false_value = some (Object.bool false)
leaf_value (integer x) = some (Object.int x)
leaf_value (double x) = some (Object.double x)
leaf_value big_number = none
leaf_value (string x) = some (Object.str (c_str x))
leaf_value other = none

abbrev pub key : List ℕ → List ℕ
key k = c_str k

-- The test for `go`. `is_benchmark` returns true.
unfoldable pub setup_test : Libc → ℕ → Holding → Bool × Holding
unfolding load_data_file
setup_test libc object_size w = assign_file (load_data_file libc format_json object_size w)

unfoldable pub teardown_test : Holding → Holding
teardown_test w = free_file w

unfoldable pub test : Libc → Malloc → (List ℕ → Option (Tree Leaf)) → Test Holding
unfolding setup_test teardown_test
test libc malloc parse = file_test (setup_test libc) (run_test malloc parse) teardown_test
