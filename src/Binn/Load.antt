-- ===== src/Binn/Load.antt =====
-- src/binn/binn-load.c: the hash of a `binn` value.
pub mod Laws
pub mod Timed
mod Tests
use schemaless_benchmarks.Base.{
  ℕ, suc, Bool, true, false, ◌&&◌, ◌==◌, Option, none, some, List, u32, if◌then◌else◌, ℤ,
}
use schemaless_benchmarks.Hash.{
  hash_bool, hash_double, hash_i64, hash_nil, hash_str, hash_u32, hash_u64,
}
use schemaless_benchmarks.Object
use schemaless_benchmarks.Object.{Object, Elements, Entries, no_elements, no_entries}
use schemaless_benchmarks.Benchmark.Go.{Test}
use schemaless_benchmarks.Benchmark.Load.{
  Libc, Holding, load_data_file, assign_file, free_file, file_test, format_binn,
}
use schemaless_benchmarks.Benchmark.{
  Malloc, benchmark_in_situ_copy, Held, copied, benchmark_in_situ_free, made, destroyed, ending,
}
use schemaless_benchmarks.Parser.{
  Hashing, update, fail, succeed, ◌>>◌, c_str, array_of, map_of, element_of, entry_of,
}

-- `binn_type` of a value without children, with its member of the union. `other` is each type that the
-- `switch` leaves to its default.
pub data Leaf : Type 0 where
  null : Leaf
  bool : Bool → Leaf
  double : ℕ → Leaf
  string : List ℕ → Leaf
  uint8 uint16 uint32 uint64 : ℕ → Leaf
  int8 int16 int32 int64 : ℤ → Leaf
  other : Leaf

-- What the library says of a list or an object: `binn_count`, and whether `binn_iter_init` succeeds.
pub record Header : Type 0 where
  pub count : ℕ
  pub opens : Bool

-- The children are those that `binn_list_next` and `binn_object_next` give before they return false, which
-- is at an error or at the end.
mutual
  pub data Value : Type 0 where
    leaf : Leaf → Value
    list : Header → Items → Value
    object : Header → Members → Value

  pub data Items : Type 0 where
    no_items : Items
    item : Value → Items → Items

  pub data Members : Type 0 where
    no_members : Members
    member : List ℕ → Value → Members → Members

abbrev pub item_count : Items → ℕ
item_count no_items = 0
item_count (item t ts) = suc (item_count ts)

abbrev pub member_count : Members → ℕ
member_count no_members = 0
member_count (member k t ms) = suc (member_count ms)

-- `if (!b) return false;`
abbrev pub demand : Bool → Hashing
demand true = succeed
demand false = fail

unfoldable mutual
  pub hash_value : Value → Hashing
  hash_value (leaf null) = update hash_nil
  hash_value (leaf (bool x)) = update (λ h. hash_bool h x)
  hash_value (leaf (double x)) = update (λ h. hash_double h x)
  hash_value (leaf (string x)) = update (λ h. hash_str h (c_str x))
  hash_value (leaf (uint8 x)) = update (λ h. hash_u64 h x)
  hash_value (leaf (uint16 x)) = update (λ h. hash_u64 h x)
  hash_value (leaf (uint32 x)) = update (λ h. hash_u64 h x)
  hash_value (leaf (uint64 x)) = update (λ h. hash_u64 h x)
  hash_value (leaf (int8 x)) = update (λ h. hash_i64 h x)
  hash_value (leaf (int16 x)) = update (λ h. hash_i64 h x)
  hash_value (leaf (int32 x)) = update (λ h. hash_i64 h x)
  hash_value (leaf (int64 x)) = update (λ h. hash_i64 h x)
  hash_value (leaf other) = fail
  hash_value (list header ts) = do
    demand header.opens
    loop_list ts
    demand (u32 (item_count ts) == header.count)
    update (λ h. hash_u32 h header.count)
  hash_value (object header ms) = do
    demand header.opens
    loop_object ms
    demand (u32 (member_count ms) == header.count)
    update (λ h. hash_u32 h header.count)

  -- The loop of `hash_list`.
  pub loop_list : Items → Hashing
  loop_list no_items = succeed
  loop_list (item t ts) = do hash_value t; loop_list ts

  -- The loop of `hash_object`.
  pub loop_object : Members → Hashing
  loop_object no_members = succeed
  loop_object (member k t ms) = do
    update (λ h. hash_str h (c_str k))
    do hash_value t; loop_object ms

-- A root that is no list is taken for an object; no iterator opens on one that is neither.
abbrev pub hash_root : Value → Hashing
hash_root (leaf x) = fail
hash_root (list header ts) = hash_value (list header ts)
hash_root (object header ms) = hash_value (object header ms)

-- `binn_load` of the copy; it is not told the size.
unfoldable pub run_test : Malloc → (List ℕ → Value) → List ℕ → ℕ → Held → Bool × ℕ × Held
run_test malloc binn_load file_data hash held = elim (benchmark_in_situ_copy malloc file_data) [
  | none ↦ (false, hash, held)
  | some data_copy ↦
      ending (hash_root (binn_load data_copy) hash) (benchmark_in_situ_free (copied held))
]

-- The object that a leaf stands for.
abbrev pub leaf_value : Leaf → Option Object
leaf_value null = some Object.nil
leaf_value (bool x) = some (Object.bool x)
leaf_value (double x) = some (Object.double x)
leaf_value (string x) = some (Object.str (c_str x))
leaf_value (uint8 x) = some (Object.uint x)
leaf_value (uint16 x) = some (Object.uint x)
leaf_value (uint32 x) = some (Object.uint x)
leaf_value (uint64 x) = some (Object.uint x)
leaf_value (int8 x) = some (Object.int x)
leaf_value (int16 x) = some (Object.int x)
leaf_value (int32 x) = some (Object.int x)
leaf_value (int64 x) = some (Object.int x)
leaf_value other = none

-- The object that a value stands for, if its lists and objects are whole.
unfoldable mutual
  pub value : Value → Option Object
  value (leaf l) = leaf_value l
  value (list header ts) =
      if header.opens && (u32 (item_count ts) == header.count) then array_of (values ts) else none
  value (object header ms) =
      if header.opens && (u32 (member_count ms) == header.count)
      then map_of (member_values ms)
      else none

  pub values : Items → Option Elements
  values no_items = some no_elements
  values (item t ts) = element_of (value t) (values ts)

  pub member_values : Members → Option Entries
  member_values no_members = some no_entries
  member_values (member k t ms) = entry_of (c_str k) (value t) (member_values ms)

-- The functions for `go`. `is_benchmark` returns true.
unfoldable pub setup_test : Libc → ℕ → Holding → Bool × Holding
unfolding load_data_file
setup_test libc object_size w = assign_file (load_data_file libc format_binn object_size w)

unfoldable pub teardown_test : Holding → Holding
teardown_test w = free_file w

unfoldable pub test : Libc → Malloc → (List ℕ → Value) → Test Holding
unfolding setup_test teardown_test
test libc malloc binn_load = file_test (setup_test libc) (run_test malloc binn_load) teardown_test
