-- ===== src/Bson/Append.antt =====
-- src/libbson/libbson-append.c: `append_document` and `append_array`, which call libbson for each element.
pub mod Laws
pub mod Meaning
pub mod Samples
use schemaless_benchmarks.Benchmark.Root.{Root, create_root, destroy_root}
use schemaless_benchmarks.Base.{
  ℕ, suc, ◌+◌, ◌^◌, Bool, true, false, ltb, Option, none, some, List, u32, if◌then◌else◌, ℤ, pos,
  negsuc,
}
use schemaless_benchmarks.Hash.{hash_str}
use schemaless_benchmarks.Generator.Init.{to_signed}
use schemaless_benchmarks.Object.{
  Object, Elements, Entries, no_elements, element, no_entries, entry,
}
use schemaless_benchmarks.Object
use schemaless_benchmarks.Writer.{Writing, done, ◌>>◌}
use schemaless_benchmarks.Bson.Iter.{Leaf, null, bool, int32, int64, double, utf8}

-- What the library does to its documents. The results of its calls are not looked at. `append` stands for
-- `bson_append_null` to `bson_append_utf8`. The functions that begin a child give the parent and the child; those
-- that end it are given both. `index_name` is what `bson_uint32_to_string` gives.
pub record Bson (B : Type 0) : Type 0 where
  pub initializer : B
  pub append : List ℕ → Leaf → B → B
  pub document_begin : List ℕ → B → B × B
  pub document_end : B → B → B
  pub array_begin : List ℕ → B → B × B
  pub array_end : B → B → B
  pub index_name : ℕ → List ℕ
  pub data_of : B → List ℕ

-- `value >= INT32_MIN && value <= INT32_MAX`
abbrev pub is_int32 : ℤ → Bool
is_int32 (pos n) = ltb n (2 ^ 31)
is_int32 (negsuc n) = ltb n (2 ^ 31)

abbrev pub shortest : ℤ → Leaf
shortest value = if is_int32 value then int32 value else int64 value

module _ {B : Type 0} (bson : Bson B) where
  -- `append_int` does not return anything.
  abbrev pub append_int : List ℕ → ℤ → B → B
  append_int key value = bson.append key (shortest value)

  -- The result for a child is thrown away.
  unfoldable mutual
    pub append_value : List ℕ → Object → Writing B
    append_value key Object.nil b = (true, bson.append key null b)
    append_value key (Object.bool x) b = (true, bson.append key (bool x) b)
    append_value key (Object.double x) b = (true, bson.append key (double x) b)
    append_value key (Object.str s) b = (true, bson.append key (utf8 s) b)
    append_value key (Object.int x) b = (true, append_int key x b)
    append_value key (Object.uint x) b = (true, append_int key (to_signed x) b)
    append_value key (Object.map es) b =
        let (parent, child) = bson.document_begin key b in
        (true, bson.document_end parent (append_document es child).1)
    append_value key (Object.array xs) b =
        let (parent, child) = bson.array_begin key b in
        (true, bson.array_end parent (append_array 0 xs child).1)

    pub append_document : Entries → Writing B
    append_document no_entries = done
    append_document (entry k x es) = append_value k x >> append_document es

    -- The loop from the index `i` on.
    pub append_array : ℕ → Elements → Writing B
    append_array i no_elements = done
    append_array i (element x xs) =
        append_value (bson.index_name (u32 i)) x >> append_array (suc i) xs

  -- A root that is no map is taken for an array: `none` stands for reading children of a value that has none.
  unfoldable pub append_root : Object → Option (Bool × B)
  append_root (Object.map es) = some (append_document es bson.initializer)
  append_root (Object.array xs) = some (append_array 0 xs bson.initializer)
  append_root _ = none

  unfoldable pub run_test : Object → ℕ → Option (Bool × ℕ)
  run_test root_object hash = elim (append_root root_object) [
    | none ↦ none
    | some written ↦
        some (if written.0 then (true, hash_str hash (bson.data_of written.1)) else (false, hash))
  ]

-- The other functions of the test; `create` is the object that `benchmark_object_create` gives for a size.
unfoldable pub setup_test : (ℕ → Object) → ℕ → Root → Bool × Root
setup_test create object_size w = create_root (create object_size) w

unfoldable pub teardown_test : Root → Root
teardown_test w = destroy_root w
