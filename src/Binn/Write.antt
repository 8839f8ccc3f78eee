-- ===== src/Binn/Write.antt =====
-- src/binn/binn-write.c: `write_list` and `write_object`, which call binn for each child.
pub mod Library
pub mod Laws
mod Tests
use schemaless_benchmarks.Benchmark.Root.{Root, create_root, destroy_root}
use schemaless_benchmarks.Base.{ℕ, Bool, true, false, Option, none, some, List, if◌then◌else◌, ℤ}
use schemaless_benchmarks.Hash.{hash_str}
use schemaless_benchmarks.Object.{
  Object, Elements, Entries, nil, bool, double, int, uint, str, array, map, no_elements, element,
  no_entries, entry,
}
use schemaless_benchmarks.Parser.{c_str}
use schemaless_benchmarks.Writer.{Writing, done, ◌>>◌}

-- The values that the calls `binn_list_add_…` and `binn_object_set_…` store, one constructor for each of the calls.
pub data Scalar : Type 0 where
  of_null : Scalar
  of_bool : Bool → Scalar
  of_double : ℕ → Scalar
  of_int64 : ℤ → Scalar
  of_uint64 : ℕ → Scalar
  of_str : List ℕ → Scalar

-- What the library does to its `binn`s. A call returns whether it succeeded; one that adds a container is given the
-- child before the parent. `bytes` are those of `binn_ptr` and `binn_size`.
pub record Binn (B : Type 0) : Type 0 where
  pub create_list : B
  pub create_object : B
  pub list_add : Scalar → Writing B
  pub list_add_object : B → Writing B
  pub object_set : List ℕ → Scalar → Writing B
  pub object_set_object : List ℕ → B → Writing B
  pub bytes : B → List ℕ

-- `if (ok) ok = …(parent, &child); if (!ok) return false;`
abbrev pub attach : {B : Type 0} → Bool × B → (B → Writing B) → Writing B
attach (ok, child) add parent = if ok then add child parent else (false, parent)

module _ {B : Type 0} (binn : Binn B) where
  -- `add_element` and `set_entry` are the two `switch`es.
  unfoldable mutual
    pub add_element : Object → Writing B
    add_element nil = binn.list_add of_null
    add_element (bool x) = binn.list_add (of_bool x)
    add_element (double x) = binn.list_add (of_double x)
    add_element (int x) = binn.list_add (of_int64 x)
    add_element (uint x) = binn.list_add (of_uint64 x)
    add_element (str x) = binn.list_add (of_str (c_str x))
    add_element (array xs) = attach (write_list xs binn.create_list) binn.list_add_object
    add_element (map es) = attach (write_object es binn.create_object) binn.list_add_object

    pub write_list : Elements → Writing B
    write_list no_elements = done
    write_list (element x xs) = add_element x >> write_list xs

    pub set_entry : List ℕ → Object → Writing B
    set_entry key nil = binn.object_set key of_null
    set_entry key (bool x) = binn.object_set key (of_bool x)
    set_entry key (double x) = binn.object_set key (of_double x)
    set_entry key (int x) = binn.object_set key (of_int64 x)
    set_entry key (uint x) = binn.object_set key (of_uint64 x)
    set_entry key (str x) = binn.object_set key (of_str (c_str x))
    set_entry key (array xs) = attach (write_list xs binn.create_list) (binn.object_set_object key)
    set_entry key (map es) =
        attach (write_object es binn.create_object) (binn.object_set_object key)

    pub write_object : Entries → Writing B
    write_object no_entries = done
    write_object (entry k x es) = set_entry (c_str k) x >> write_object es

  -- The root `binn` and whether it could be written. A root that is no map is taken for an array: `none` stands for
  -- reading children of a value that has none.
  unfoldable pub write_root : Object → Option (Bool × B)
  write_root (map es) = some (write_object es binn.create_object)
  write_root (array xs) = some (write_list xs binn.create_list)
  write_root _ = none

  unfoldable pub run_test : Object → ℕ → Option (Bool × ℕ)
  run_test root_object hash = elim (write_root root_object) [
    | none ↦ none
    | some written ↦
        some (if written.0 then (true, hash_str hash (binn.bytes written.1)) else (false, hash))
  ]

-- The other functions of the test; `create` is the object that `benchmark_object_create` gives for a size.
unfoldable pub setup_test : (ℕ → Object) → ℕ → Root → Bool × Root
setup_test create object_size w = create_root (create object_size) w

unfoldable pub teardown_test : Root → Root
teardown_test w = destroy_root w
