-- ===== src/Mpack/Write.antt =====
-- src/mpack/mpack-write.c: `write_object`, which calls the writer of MPack.
pub mod Laws
pub mod Timed
use schemaless_benchmarks.Benchmark.Go.{Test}
use schemaless_benchmarks.Benchmark.Root.{Root, create_root, destroy_root, object_test}
use schemaless_benchmarks.Base.{ℕ, Bool, true, false, List, [], ◌∷◌, u32, length, if◌then◌else◌, ℤ}
use schemaless_benchmarks.Hash.{hash_str}
use schemaless_benchmarks.Object.{
  Object, Elements, Entries, nil, bool, double, int, uint, str, array, map, no_elements, element,
  no_entries, entry, count_elements, count_entries,
}
use schemaless_benchmarks.Writer.{
  Writing, done, ◌>>◌, quiet, Event, null, boolean, real, signed, unsigned, text, begin_array,
  end_array, begin_map, key, end_map,
}

-- The calls `mpack_write_…`, `mpack_start_…` and `mpack_finish_…` with their arguments. They return nothing.
pub data Call : Type 0 where
  write_nil : Call
  write_bool : Bool → Call
  write_double : ℕ → Call
  write_i64 : ℤ → Call
  write_u64 : ℕ → Call
  write_str : List ℕ → Call
  start_array : ℕ → Call
  finish_array : Call
  start_map : ℕ → Call
  finish_map : Call

module _ {W : Type 0} (perform : Call → Writing W) where
  unfoldable mutual
    pub write_object : Object → Writing W
    write_object nil = perform write_nil
    write_object (bool x) = perform (write_bool x)
    write_object (double x) = perform (write_double x)
    write_object (int x) = perform (write_i64 x)
    write_object (uint x) = perform (write_u64 x)
    write_object (str x) = perform (write_str x)
    write_object (array xs) =
        perform (start_array (u32 (count_elements xs)))
        >> (write_elements xs >> perform finish_array)
    write_object (map xs) =
        perform (start_map (u32 (count_entries xs))) >> (write_entries xs >> perform finish_map)

    pub write_elements : Elements → Writing W
    write_elements no_elements = done
    write_elements (element x xs) = write_object x >> write_elements xs

    pub write_entries : Entries → Writing W
    write_entries no_entries = done
    write_entries (entry x v xs) = perform (write_str x) >> (write_object v >> write_entries xs)

-- `mpack_writer_destroy` reports whether any call failed.
unfoldable pub run_test :
    {W : Type 0} → (Call → W → W) → (W → Bool) → (W → List ℕ) → W → Object → ℕ → Bool × ℕ
run_test perform is_ok contents start root_object hash =
    let (ok, written) = write_object (quiet perform) root_object start in
    if is_ok written then (true, hash_str hash (contents written)) else (false, hash)

-- The calls for each event of a document.
unfoldable pub encode : Event → List Call
encode null = write_nil ∷ []
encode (boolean x) = write_bool x ∷ []
encode (real x) = write_double x ∷ []
encode (signed x) = write_i64 x ∷ []
encode (unsigned x) = write_u64 x ∷ []
encode (text x) = write_str x ∷ []
encode (begin_array x) = start_array x ∷ []
encode end_array = finish_array ∷ []
encode (begin_map x) = start_map x ∷ []
encode (key x) = write_str x ∷ []
encode end_map = finish_map ∷ []

-- The functions for `go`; `create` is the object that `benchmark_object_create` gives for a size. `is_benchmark`
-- returns true.
unfoldable pub setup_test : (ℕ → Object) → ℕ → Root → Bool × Root
setup_test create object_size w = create_root (create object_size) w

unfoldable pub teardown_test : Root → Root
teardown_test w = destroy_root w

unfoldable pub test :
    {W : Type 0} → (ℕ → Object) → (Call → W → W) → (W → Bool) → (W → List ℕ) → W → Test Root
unfolding setup_test teardown_test
test create perform is_ok contents start =
    object_test (setup_test create) (run_test perform is_ok contents start) teardown_test
