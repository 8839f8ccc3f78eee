-- ===== src/Msgpack/Pack.antt =====
-- src/msgpack/msgpack-c-pack.c: `pack_object`, which calls the packer of msgpack-c.
pub mod Laws
pub mod Timed
mod Tests
use schemaless_benchmarks.Benchmark.Go.{Test}
use schemaless_benchmarks.Benchmark.Root.{Root, create_root, destroy_root, object_test}
use schemaless_benchmarks.Base.{ℕ, Bool, true, false, List, [], ◌∷◌, u32, length, if◌then◌else◌, ℤ}
use schemaless_benchmarks.Hash.{hash_str}
use schemaless_benchmarks.Object.{
  Object, Elements, Entries, nil, bool, double, int, uint, str, array, map, no_elements, element,
  no_entries, entry, count_elements, count_entries,
}
use schemaless_benchmarks.Writer.{
  Writing, done, ◌>>◌, quiet, Event, null, boolean, real, signed, unsigned, text, begin_array,
  end_array, begin_map, key, end_map,
}

-- The calls `msgpack_pack_…` with their arguments.
pub data Call : Type 0 where
  pack_nil : Call
  pack_true : Call
  pack_false : Call
  pack_double : ℕ → Call
  pack_long_long : ℤ → Call
  pack_unsigned_long_long : ℕ → Call
  pack_str : ℕ → Call
  pack_str_body : List ℕ → Call
  pack_array : ℕ → Call
  pack_map : ℕ → Call

module _ {W : Type 0} (perform : Call → Writing W) where
  unfoldable mutual
    pub pack_object : Object → Writing W
    pack_object nil = perform pack_nil
    pack_object (bool x) = perform (if x then pack_true else pack_false)
    pack_object (double x) = perform (pack_double x)
    pack_object (int x) = perform (pack_long_long x)
    pack_object (uint x) = perform (pack_unsigned_long_long x)
    pack_object (str x) = perform (pack_str (u32 (length x))) >> perform (pack_str_body x)
    pack_object (array xs) = perform (pack_array (u32 (count_elements xs))) >> write_elements xs
    pack_object (map xs) = perform (pack_map (u32 (count_entries xs))) >> write_entries xs

    pub write_elements : Elements → Writing W
    write_elements no_elements = done
    write_elements (element x xs) = pack_object x >> write_elements xs

    pub write_entries : Entries → Writing W
    write_entries no_entries = done
    write_entries (entry x v xs) =
        (perform (pack_str (u32 (length x))) >> perform (pack_str_body x))
        >> (pack_object v >> write_entries xs)

-- `msgpack_sbuffer` holds the bytes written.
unfoldable pub run_test :
    {W : Type 0} → (Call → Writing W) → (W → List ℕ) → W → Object → ℕ → Bool × ℕ
run_test perform contents start root_object hash =
    let (ok, written) = pack_object perform root_object start in
    if ok then (true, hash_str hash (contents written)) else (false, hash)

-- The calls for each event of a document.
unfoldable pub encode : Event → List Call
encode null = pack_nil ∷ []
encode (boolean x) = (if x then pack_true else pack_false) ∷ []
encode (real x) = pack_double x ∷ []
encode (signed x) = pack_long_long x ∷ []
encode (unsigned x) = pack_unsigned_long_long x ∷ []
encode (text x) = pack_str (u32 (length x)) ∷ pack_str_body x ∷ []
encode (begin_array x) = pack_array x ∷ []
encode end_array = []
encode (begin_map x) = pack_map x ∷ []
encode (key x) = pack_str (u32 (length x)) ∷ pack_str_body x ∷ []
encode end_map = []

-- The functions for `go`; `create` is the object that `benchmark_object_create` gives for a size. `is_benchmark`
-- returns true.
unfoldable pub setup_test : (ℕ → Object) → ℕ → Root → Bool × Root
setup_test create object_size w = create_root (create object_size) w

unfoldable pub teardown_test : Root → Root
teardown_test w = destroy_root w

unfoldable pub test :
    {W : Type 0} → (ℕ → Object) → (Call → Writing W) → (W → List ℕ) → W → Test Root
unfolding setup_test teardown_test
test create perform contents start =
    object_test (setup_test create) (run_test perform contents start) teardown_test
