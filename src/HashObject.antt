-- ===== src/HashObject.antt =====
-- src/hash/hash-object.c: the hash of the object itself, the reference for every parser's hash.
pub mod Laws
pub mod Canonical
pub mod Setup
mod Tests
use schemaless_benchmarks.Base.{
  ℕ, ◌*◌, ◌^◌, Bool, true, false, Option, none, some, List, [], u32, ◌<<<◌,
}
use schemaless_benchmarks.Hash.{
  hash_u32, hash_u64, hash_i64, hash_bool, hash_double, hash_str, hash_nil,
}
use schemaless_benchmarks.Object.{
  Object, Elements, Entries, nil, bool, double, int, uint, str, array, map, no_elements, element,
  no_entries, entry, count_elements, count_entries,
}
use schemaless_benchmarks.Benchmark.{Malloc, benchmark_in_situ_copy}

-- `*hash` is the argument and the result. The two loops are functions of their own.
unfoldable mutual
  pub hash_object : Object → ℕ → ℕ
  hash_object nil hash = hash_nil hash
  hash_object (bool b) hash = hash_bool hash b
  hash_object (double d) hash = hash_double hash d
  hash_object (int i) hash = hash_i64 hash i
  hash_object (uint u) hash = hash_u64 hash u
  hash_object (str s) hash = hash_str hash s
  hash_object (array xs) hash = hash_u32 (hash_elements xs hash) (u32 (count_elements xs))
  hash_object (map es) hash = hash_u32 (hash_entries es hash) (u32 (count_entries es))

  pub hash_elements : Elements → ℕ → ℕ
  hash_elements no_elements hash = hash
  hash_elements (element x xs) hash = hash_elements xs (hash_object x hash)

  pub hash_entries : Entries → ℕ → ℕ
  hash_entries no_entries hash = hash
  hash_entries (entry k x es) hash = hash_entries es (hash_object x (hash_str hash k))

-- `run_test`, with `root_object` and `insitu_data`. `none` is the return value false.
unfoldable pub run_test : Malloc → Object → List ℕ → ℕ → Option ℕ
run_test malloc root_object insitu_data hash_out =
    elim (benchmark_in_situ_copy malloc insitu_data) [
      | none ↦ none
      | some copy ↦ some (hash_object root_object hash_out)
    ]
