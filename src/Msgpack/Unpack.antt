-- ===== src/Msgpack/Unpack.antt =====
-- src/msgpack/msgpack-c-unpack.c: the hash of a `msgpack_object`.
pub mod Laws
pub mod Timed
use schemaless_benchmarks.Base.{ℕ, Bool, true, false, Option, none, some, List, length, u32, ℤ}
use schemaless_benchmarks.Hash.{
  hash_bool, hash_double, hash_i64, hash_nil, hash_str, hash_u32, hash_u64,
}
use schemaless_benchmarks.Object
use schemaless_benchmarks.Object.{Object}
use schemaless_benchmarks.Benchmark.Go.{Test}
use schemaless_benchmarks.Benchmark.Load.{
  Libc, Holding, load_data_file, assign_file, free_file, file_test, format_messagepack,
}
use schemaless_benchmarks.Benchmark.{
  Malloc, benchmark_in_situ_copy, Held, copied, benchmark_in_situ_free, made, destroyed, ending,
}
use schemaless_benchmarks.Parser.{
  Hashing, update, fail, succeed, ◌>>◌, Tree, Items, Members, leaf, list, object, no_items, item,
  no_members, member, item_count, member_count, c_str,
}

-- The tag of a `msgpack_object` without children, with its member of the union `via`. `other` is
-- each type that the `switch` leaves to its default. The keys of a map are its `via.str`, as the
-- assertion there demands.
pub data Leaf : Type 0 where
  nil : Leaf
  boolean : Bool → Leaf
  float : ℕ → Leaf
  negative_integer : ℤ → Leaf
  positive_integer : ℕ → Leaf
  str : List ℕ → Leaf
  other : Leaf

-- The count of a map is read as `via.array.size`, which is at the place of `via.map.size` in the union.
unfoldable mutual
  pub hash_object : Tree Leaf → Hashing
  hash_object (leaf nil) = update hash_nil
  hash_object (leaf (boolean x)) = update (λ h. hash_bool h x)
  hash_object (leaf (float x)) = update (λ h. hash_double h x)
  hash_object (leaf (negative_integer x)) = update (λ h. hash_i64 h x)
  hash_object (leaf (positive_integer x)) = update (λ h. hash_u64 h x)
  hash_object (leaf (str x)) = update (λ h. hash_str h x)
  hash_object (leaf other) = fail
  hash_object (list ts) = do hash_array ts; update (λ h. hash_u32 h (u32 (item_count ts)))
  hash_object (object ms) = do hash_map ms; update (λ h. hash_u32 h (u32 (member_count ms)))

  pub hash_array : Items Leaf → Hashing
  hash_array no_items = succeed
  hash_array (item t ts) = do hash_object t; hash_array ts

  pub hash_map : Members Leaf → Hashing
  hash_map no_members = succeed
  hash_map (member k t ms) = do update (λ h. hash_str h (k)); do hash_object t; hash_map ms

-- `msgpack_unpack_next` of the copy, up to the size of the file.
unfoldable pub run_test :
    Malloc → (List ℕ → ℕ → Option (Tree Leaf)) → List ℕ → ℕ → Held → Bool × ℕ × Held
run_test malloc msgpack_unpack_next file_data hash held =
    elim (benchmark_in_situ_copy malloc file_data) [
      | none ↦ (false, hash, held)
      | some data_copy ↦ elim (msgpack_unpack_next data_copy (length file_data)) [
        | none ↦ (false, hash, benchmark_in_situ_free (copied held))
        | some msg ↦
            ending (hash_object msg hash) (benchmark_in_situ_free (destroyed (made (copied held))))
      ]
    ]

-- The object that a leaf stands for, and the bytes of a key.
abbrev pub leaf_value : Leaf → Option Object
leaf_value nil = some Object.nil
leaf_value (boolean x) = some (Object.bool x)
leaf_value (float x) = some (Object.double x)
leaf_value (negative_integer x) = some (Object.int x)
leaf_value (positive_integer x) = some (Object.uint x)
leaf_value (str x) = some (Object.str x)
leaf_value other = none

abbrev pub key : List ℕ → List ℕ
key k = k

-- The test for `go`. `is_benchmark` returns true.
unfoldable pub setup_test : Libc → ℕ → Holding → Bool × Holding
unfolding load_data_file
setup_test libc object_size w = assign_file (load_data_file libc format_messagepack object_size w)

unfoldable pub teardown_test : Holding → Holding
teardown_test w = free_file w

unfoldable pub test : Libc → Malloc → (List ℕ → ℕ → Option (Tree Leaf)) → Test Holding
unfolding setup_test teardown_test
test libc malloc parse = file_test (setup_test libc) (run_test malloc parse) teardown_test
