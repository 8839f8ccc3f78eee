-- ===== src/Yajl/Gen.antt =====
-- src/yajl/yajl-gen.c: `gen_object`, which calls the generator of YAJL.
pub mod Laws
pub mod Timed
mod Tests
use schemaless_benchmarks.Benchmark.Go.{Test}
use schemaless_benchmarks.Benchmark.Root.{Root, create_root, destroy_root, object_test}
use schemaless_benchmarks.Base.{ℕ, Bool, true, false, List, [], ◌∷◌, u32, length, if◌then◌else◌, ℤ}
use schemaless_benchmarks.Hash.{hash_str}
use schemaless_benchmarks.Generator.Init.{to_signed}
use schemaless_benchmarks.Object.{
  Object, Elements, Entries, nil, bool, double, int, uint, str, array, map, no_elements, element,
  no_entries, entry, count_elements, count_entries,
}
use schemaless_benchmarks.Writer.{
  Writing, done, ◌>>◌, quiet, Event, null, boolean, real, signed, unsigned, text, begin_array,
  end_array, begin_map, key, end_map,
}

-- The calls `yajl_gen_…` with their arguments.
pub data Call : Type 0 where
  gen_null : Call
  gen_bool : Bool → Call
  gen_double : ℕ → Call
  gen_integer : ℤ → Call
  gen_string : List ℕ → Call
  array_open : Call
  array_close : Call
  map_open : Call
  map_close : Call

module _ {W : Type 0} (perform : Call → Writing W) where
  unfoldable mutual
    pub gen_object : Object → Writing W
    gen_object nil = perform gen_null
    gen_object (bool x) = perform (gen_bool x)
    gen_object (double x) = perform (gen_double x)
    gen_object (int x) = perform (gen_integer x)
    gen_object (uint x) = perform (gen_integer (to_signed x))
    gen_object (str x) = perform (gen_string x)
    gen_object (array xs) = perform array_open >> (write_elements xs >> perform array_close)
    gen_object (map xs) = perform map_open >> (write_entries xs >> perform map_close)

    pub write_elements : Elements → Writing W
    write_elements no_elements = done
    write_elements (element x xs) = gen_object x >> write_elements xs

    pub write_entries : Entries → Writing W
    write_entries no_entries = done
    write_entries (entry x v xs) = perform (gen_string x) >> (gen_object v >> write_entries xs)

-- `yajl_gen_get_buf` gives the bytes written.
unfoldable pub run_test :
    {W : Type 0} → (Call → Writing W) → (W → List ℕ) → W → Object → ℕ → Bool × ℕ
run_test perform contents start root_object hash =
    let (ok, written) = gen_object perform root_object start in
    if ok then (true, hash_str hash (contents written)) else (false, hash)

-- The calls for each event of a document.
unfoldable pub encode : Event → List Call
encode null = gen_null ∷ []
encode (boolean x) = gen_bool x ∷ []
encode (real x) = gen_double x ∷ []
encode (signed x) = gen_integer x ∷ []
encode (unsigned x) = gen_integer (to_signed x) ∷ []
encode (text x) = gen_string x ∷ []
encode (begin_array x) = array_open ∷ []
encode end_array = array_close ∷ []
encode (begin_map x) = map_open ∷ []
encode (key x) = gen_string x ∷ []
encode end_map = map_close ∷ []

-- The functions for `go`; `create` is the object that `benchmark_object_create` gives for a size. `is_benchmark`
-- returns true.
unfoldable pub setup_test : (ℕ → Object) → ℕ → Root → Bool × Root
setup_test create object_size w = create_root (create object_size) w

unfoldable pub teardown_test : Root → Root
teardown_test w = destroy_root w

unfoldable pub test :
    {W : Type 0} → (ℕ → Object) → (Call → Writing W) → (W → List ℕ) → W → Test Root
unfolding setup_test teardown_test
test create perform contents start =
    object_test (setup_test create) (run_test perform contents start) teardown_test
