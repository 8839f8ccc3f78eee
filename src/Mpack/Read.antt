-- ===== src/Mpack/Read.antt =====
-- src/mpack/mpack-read.c: `hash_element`, which reads with the expect API of MPack. `R` is the state of a
-- reader, which keeps its errors to itself.
pub mod Laws
pub mod Effect
pub mod Back
pub mod Samples
use schemaless_benchmarks.Base.{
  ℕ, zero, suc, ◌+◌, Bool, true, false, Option, none, some, List, [], ◌∷◌, length, if◌then◌else◌, ℤ,
}
use schemaless_benchmarks.Hash.{
  hash_bool, hash_double, hash_float, hash_i64, hash_nil, hash_str, hash_u32, hash_u64,
}
use schemaless_benchmarks.Benchmark.Load.{
  Libc, Holding, load_data_file, assign_file, free_file, format_messagepack,
}
use schemaless_benchmarks.Benchmark.{Malloc, benchmark_in_situ_copy}

-- The type of a `mpack_tag_t` with its member of the union `v`. `other` is each type that the `switch` leaves
-- to its default.
pub data Tag : Type 0 where
  nil : Tag
  bool : Bool → Tag
  int : ℤ → Tag
  uint : ℕ → Tag
  double : ℕ → Tag
  float : ℕ → Tag
  str : ℕ → Tag
  array : ℕ → Tag
  map : ℕ → Tag
  other : Tag

-- The functions of MPack that are called. `read_inplace` is `mpack_read_utf8_inplace` or
-- `mpack_read_bytes_inplace`, as CHECK_UTF8 has it; `is_ok` says that `mpack_reader_error` is `mpack_ok`, and
-- `destroy` that `mpack_reader_destroy` gives that.
pub record Mpack (R : Type 0) : Type 0 where
  pub init_data : List ℕ → ℕ → R
  pub read_tag : R → Tag × R
  pub expect_str : R → ℕ × R
  pub read_inplace : ℕ → R → List ℕ × R
  pub is_ok : R → Bool
  pub done_str : R → R
  pub done_array : R → R
  pub done_map : R → R
  pub flag_error : R → R
  pub destroy : R → Bool

-- How a part of `hash_element` ends: it goes on, or the function returns early, with `*hash` and the reader.
-- `deep` is a recursion deeper than the fuel.
pub data Flow (R : Type 0) : Type 0 where
  go_on : ℕ → R → Flow R
  leave : ℕ → R → Flow R
  deep : Flow R

abbrev pub Part : Type 0 → Type 0
Part R = R → ℕ → Flow R

abbrev pub next : {R : Type 0} → Flow R → Part R → Flow R
next (go_on hash reader) k = k reader hash
next (leave hash reader) k = leave hash reader
next deep k = deep

-- A call of a function that returns nothing: the caller goes on, wherever the function returned.
abbrev pub returned : {R : Type 0} → Flow R → Flow R
returned (go_on hash reader) = go_on hash reader
returned (leave hash reader) = go_on hash reader
returned deep = deep

module _ {R : Type 0} (mpack : Mpack R) where
  -- `if (mpack_reader_error(reader) != mpack_ok) return;`
  unfoldable pub check : Part R
  check reader hash = if mpack.is_ok reader then go_on hash reader else leave hash reader

  -- The bytes of a string, its hash and `mpack_done_str`.
  unfoldable pub hash_body : ℕ → Part R
  hash_body l reader hash =
      let (s, reader') = mpack.read_inplace l reader in
      next (check reader' hash) (λ r h. go_on (hash_str h s) (mpack.done_str r))

  unfoldable pub loop_array : Part R → ℕ → Part R
  loop_array recur zero reader hash = go_on hash reader
  loop_array recur (suc n) reader hash =
      next (next (returned (recur reader hash)) check) (loop_array recur n)

  -- The error is not looked at behind the value of an entry.
  unfoldable pub loop_map : Part R → ℕ → Part R
  loop_map recur zero reader hash = go_on hash reader
  loop_map recur (suc n) reader hash =
      let (len, reader') = mpack.expect_str reader in
      next (next (hash_body len reader' hash) (λ r h. returned (recur r h))) (loop_map recur n)

  -- The `switch`; `recur` is the recursive call.
  unfoldable pub switch : Part R → Tag → Part R
  switch recur nil reader hash = go_on (hash_nil hash) reader
  switch recur (bool x) reader hash = go_on (hash_bool hash x) reader
  switch recur (int x) reader hash = go_on (hash_i64 hash x) reader
  switch recur (uint x) reader hash = go_on (hash_u64 hash x) reader
  switch recur (double x) reader hash = go_on (hash_double hash x) reader
  switch recur (float x) reader hash = go_on (hash_float hash x) reader
  switch recur (str l) reader hash = hash_body l reader hash
  switch recur (array n) reader hash =
      next (loop_array recur n reader hash) (λ r h. go_on (hash_u32 h n) (mpack.done_array r))
  switch recur (map n) reader hash =
      next (loop_map recur n reader hash) (λ r h. go_on (hash_u32 h n) (mpack.done_map r))
  switch recur other reader hash = go_on hash (mpack.flag_error reader)

  unfoldable pub hash_element : ℕ → Part R
  hash_element zero reader hash = deep
  hash_element (suc fuel) reader hash =
      let (tag, reader') = mpack.read_tag reader in switch (hash_element fuel) tag reader' hash

  -- What `run_test` returns when `hash_element` has: whether there was an error.
  unfoldable pub finished : Flow R → Option (Bool × ℕ)
  finished (go_on hash reader) = some (mpack.destroy reader, hash)
  finished (leave hash reader) = some (mpack.destroy reader, hash)
  finished deep = none

  unfoldable pub run_test : Malloc → ℕ → List ℕ → ℕ → Option (Bool × ℕ)
  run_test malloc fuel file_data hash = elim (benchmark_in_situ_copy malloc file_data) [
    | none ↦ some (false, hash)
    | some data_copy ↦
        finished (hash_element fuel (mpack.init_data data_copy (length file_data)) hash)
  ]

-- The functions for `go`. `is_benchmark` returns true.
unfoldable pub setup_test : Libc → ℕ → Holding → Bool × Holding
unfolding load_data_file
setup_test libc object_size w = assign_file (load_data_file libc format_messagepack object_size w)

unfoldable pub teardown_test : Holding → Holding
teardown_test w = free_file w
