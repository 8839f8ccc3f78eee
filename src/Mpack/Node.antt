-- ===== src/Mpack/Node.antt =====
-- src/mpack/mpack-node.c: the hash of an `mpack_node_t`.
pub mod Laws
pub mod Timed
use schemaless_benchmarks.Base.{ℕ, Bool, true, false, Option, none, some, List, length, u32, ℤ}
use schemaless_benchmarks.Hash.{
  hash_bool, hash_double, hash_i64, hash_nil, hash_str, hash_u32, hash_u64,
}
use schemaless_benchmarks.Object
use schemaless_benchmarks.Object.{Object}
use schemaless_benchmarks.Benchmark.Go.{Test}
use schemaless_benchmarks.Benchmark.Load.{
  Libc, Holding, load_data_file, assign_file, free_file, file_test, format_messagepack,
}
use schemaless_benchmarks.Benchmark.{
  Malloc, benchmark_in_situ_copy, Held, copied, benchmark_in_situ_free, made, destroyed, ending,
}
use schemaless_benchmarks.Parser.{
  Hashing, update, fail, succeed, ◌>>◌, Tree, Items, Members, leaf, list, object, no_items, item,
  no_members, member, item_count, member_count, c_str,
}

-- The type of a node without children, with its value. `other` is each type that the `switch` leaves
-- to its default. The keys of a map are strings.
pub data Leaf : Type 0 where
  nil : Leaf
  boolean : Bool → Leaf
  double : ℕ → Leaf
  int : ℤ → Leaf
  uint : ℕ → Leaf
  str : List ℕ → Leaf
  other : Leaf

-- The functions return nothing: the result says whether no error is flagged on the tree, which the
-- loops ask after every child.
unfoldable mutual
  pub hash_node : Tree Leaf → Hashing
  hash_node (leaf nil) = update hash_nil
  hash_node (leaf (boolean x)) = update (λ h. hash_bool h x)
  hash_node (leaf (double x)) = update (λ h. hash_double h x)
  hash_node (leaf (int x)) = update (λ h. hash_i64 h x)
  hash_node (leaf (uint x)) = update (λ h. hash_u64 h x)
  hash_node (leaf (str x)) = update (λ h. hash_str h x)
  hash_node (leaf other) = fail
  hash_node (list ts) = do hash_array ts; update (λ h. hash_u32 h (u32 (item_count ts)))
  hash_node (object ms) = do hash_map ms; update (λ h. hash_u32 h (u32 (member_count ms)))

  pub hash_array : Items Leaf → Hashing
  hash_array no_items = succeed
  hash_array (item t ts) = do hash_node t; hash_array ts

  pub hash_map : Members Leaf → Hashing
  hash_map no_members = succeed
  hash_map (member k t ms) = do update (λ h. hash_str h (k)); do hash_node t; hash_map ms

-- `mpack_tree_init` of the copy, up to the size of the file: `none` is a tree in error, whose root is
-- a nil node. Whether an error was flagged is the result of `mpack_tree_destroy`.
unfoldable pub run_test :
    Malloc → (List ℕ → ℕ → Option (Tree Leaf)) → List ℕ → ℕ → Held → Bool × ℕ × Held
run_test malloc mpack_tree_init file_data hash held =
    elim (benchmark_in_situ_copy malloc file_data) [
      | none ↦ (false, hash, held)
      | some data_copy ↦ elim (mpack_tree_init data_copy (length file_data)) [
        | none ↦ (false, hash_nil hash, benchmark_in_situ_free (destroyed (made (copied held))))
        | some root ↦
            ending (hash_node root hash) (benchmark_in_situ_free (destroyed (made (copied held))))
      ]
    ]

-- The object that a leaf stands for, and the bytes of a key.
abbrev pub leaf_value : Leaf → Option Object
leaf_value nil = some Object.nil
leaf_value (boolean x) = some (Object.bool x)
leaf_value (double x) = some (Object.double x)
leaf_value (int x) = some (Object.int x)
leaf_value (uint x) = some (Object.uint x)
leaf_value (str x) = some (Object.str x)
leaf_value other = none

abbrev pub key : List ℕ → List ℕ
key k = k

-- The test for `go`. `is_benchmark` returns true.
unfoldable pub setup_test : Libc → ℕ → Holding → Bool × Holding
unfolding load_data_file
setup_test libc object_size w = assign_file (load_data_file libc format_messagepack object_size w)

unfoldable pub teardown_test : Holding → Holding
teardown_test w = free_file w

unfoldable pub test : Libc → Malloc → (List ℕ → ℕ → Option (Tree Leaf)) → Test Holding
unfolding setup_test teardown_test
test libc malloc parse = file_test (setup_test libc) (run_test malloc parse) teardown_test
