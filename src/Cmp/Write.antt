-- ===== src/Cmp/Write.antt =====
-- src/cmp/cmp-write.c: `write_object`, which calls cmp.
pub mod Laws
pub mod Timed
use schemaless_benchmarks.Benchmark.Go.{Test}
use schemaless_benchmarks.Benchmark.Root.{Root, create_root, destroy_root, object_test}
use schemaless_benchmarks.Base.{
  ℕ, Bool, true, false, Option, none, some, take, List, [], ◌∷◌, u32, length, if◌then◌else◌, ℤ,
}
use schemaless_benchmarks.Hash.{hash_str}
use schemaless_benchmarks.Buffer.{Buffer, Realloc, buffer_init, buffer_write}
use schemaless_benchmarks.Object.{
  Object, Elements, Entries, nil, bool, double, int, uint, str, array, map, no_elements, element,
  no_entries, entry, count_elements, count_entries,
}
use schemaless_benchmarks.Writer.{
  Writing, done, ◌>>◌, quiet, Event, null, boolean, real, signed, unsigned, text, begin_array,
  end_array, begin_map, key, end_map,
}

-- The calls `cmp_write_…` with their arguments.
pub data Call : Type 0 where
  write_nil : Call
  write_bool : Bool → Call
  write_double : ℕ → Call
  write_sint : ℤ → Call
  write_uint : ℕ → Call
  write_str : List ℕ → Call
  write_array : ℕ → Call
  write_map : ℕ → Call

module _ {W : Type 0} (perform : Call → Writing W) where
  unfoldable mutual
    pub write_object : Object → Writing W
    write_object nil = perform write_nil
    write_object (bool x) = perform (write_bool x)
    write_object (double x) = perform (write_double x)
    write_object (int x) = perform (write_sint x)
    write_object (uint x) = perform (write_uint x)
    write_object (str x) = perform (write_str x)
    write_object (array xs) = perform (write_array (u32 (count_elements xs))) >> write_elements xs
    write_object (map xs) = perform (write_map (u32 (count_entries xs))) >> write_entries xs

    pub write_elements : Elements → Writing W
    write_elements no_elements = done
    write_elements (element x xs) = write_object x >> write_elements xs

    pub write_entries : Entries → Writing W
    write_entries no_entries = done
    write_entries (entry x v xs) = perform (write_str x) >> (write_object v >> write_entries xs)

-- A writing callback of cmp, with the bytes at `data` and their `count`: it returns how many it has written. `none`
-- is a loop that does not end.
abbrev pub Writer : Type 0
Writer = List ℕ → ℕ → Buffer → Option (ℕ × Buffer)

unfoldable pub buffer_cmp_writer : Realloc → Writer
buffer_cmp_writer realloc data_bytes count buffer =
    elim (buffer_write realloc buffer (take count data_bytes)) [
      | none ↦ none
      | some result ↦ some (if result.0 then count else 0, result.1)
    ]

-- `cmp_init` gives cmp the callback and a fresh buffer for it: what each call of cmp does to the buffer is a function
-- of the callback.
unfoldable pub run_test : (Writer → Call → Writing Buffer) → Realloc → Object → ℕ → Bool × ℕ
run_test cmp_init realloc root_object hash =
    let (ok, written) =
      write_object (cmp_init (buffer_cmp_writer realloc)) root_object buffer_init in
    if ok then (true, hash_str hash (written.contents)) else (false, hash)

-- The calls for each event of a document.
unfoldable pub encode : Event → List Call
encode null = write_nil ∷ []
encode (boolean x) = write_bool x ∷ []
encode (real x) = write_double x ∷ []
encode (signed x) = write_sint x ∷ []
encode (unsigned x) = write_uint x ∷ []
encode (text x) = write_str x ∷ []
encode (begin_array x) = write_array x ∷ []
encode end_array = []
encode (begin_map x) = write_map x ∷ []
encode (key x) = write_str x ∷ []
encode end_map = []

-- The functions for `go`; `create` is the object that `benchmark_object_create` gives for a size. `is_benchmark`
-- returns true.
unfoldable pub setup_test : (ℕ → Object) → ℕ → Root → Bool × Root
setup_test create object_size w = create_root (create object_size) w

unfoldable pub teardown_test : Root → Root
teardown_test w = destroy_root w

unfoldable pub test : (ℕ → Object) → (Writer → Call → Writing Buffer) → Realloc → Test Root
unfolding setup_test teardown_test
test create cmp_init realloc =
    object_test (setup_test create) (run_test cmp_init realloc) teardown_test
