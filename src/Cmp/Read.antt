-- ===== src/Cmp/Read.antt =====
-- src/cmp/cmp-read.c: `hash_element`, which reads with cmp from a memory buffer.
pub mod Laws
pub mod Effect
pub mod Back
mod Tests
use schemaless_benchmarks.Base.{
  ℕ, zero, suc, ◌+◌, ◌-◌, Bool, true, false, Option, none, some, List, [], ◌∷◌, length, take, drop,
  ltb, u32, if◌then◌else◌, ℤ,
}
use schemaless_benchmarks.Hash.{
  hash_bool, hash_double, hash_i64, hash_nil, hash_str, hash_u32, hash_u64,
}
use schemaless_benchmarks.Benchmark.Load.{
  Libc, Holding, load_data_file, assign_file, free_file, format_messagepack,
}
use schemaless_benchmarks.Benchmark.{Malloc, benchmark_in_situ_copy}

-- The memory from the pointer `data` on, and how many bytes of it may be read.
pub record Buffer : Type 0 where
  pub data_at : List ℕ
  pub left : ℕ

-- Moves `data` past `count` bytes.
abbrev pub advance : ℕ → Buffer → Buffer
advance count buffer = record { data_at = drop count buffer.data_at; left = buffer.left - count }

-- The callback that cmp reads with: whether it succeeds, and the bytes that it copies.
abbrev pub Reader : Type 0
Reader = Buffer → ℕ → Bool × List ℕ × Buffer

unfoldable pub buffer_cmp_reader : Reader
buffer_cmp_reader buffer count =
    if ltb buffer.left count
    then (false, [], buffer)
    else (true, take count buffer.data_at, advance count buffer)

-- The widths in which MessagePack has types: the FIX ones, and 8 to 64 bits.
pub data Width : Type 0 where
  fix : Width
  bits_8 : Width
  bits_16 : Width
  bits_32 : Width
  bits_64 : Width

-- A `cmp_object_t`: its type with its member of the union `as`. The `switch` treats the widths of a type
-- alike. `other` is each type that it leaves to its default.
pub data CmpObject : Type 0 where
  nil : CmpObject
  boolean : Bool → CmpObject
  double : ℕ → CmpObject
  unsigned : Width → ℕ → CmpObject
  signed : Width → ℤ → CmpObject
  str : Width → ℕ → CmpObject
  array : Width → ℕ → CmpObject
  map : Width → ℕ → CmpObject
  other : CmpObject

-- The functions of cmp that are called, for a reader: whether they succeed, and what they read. `read_str`
-- is told the size of the array for the string.
pub record Cmp : Type 0 where
  pub read_object : Buffer → Bool × CmpObject × Buffer
  pub read_str : ℕ → Buffer → Bool × List ℕ × Buffer

-- `*hash` and the buffer after a function that returned true, or the hash after one that returned false.
-- `deep` is a recursion deeper than the fuel.
pub data Outcome : Type 0 where
  hashed : ℕ → Buffer → Outcome
  failed : ℕ → Outcome
  deep : Outcome

abbrev pub Reading : Type 0
Reading = Buffer → ℕ → Outcome

-- `if (!m) return false;` before what follows.
abbrev pub next : Outcome → Reading → Outcome
next (hashed hash buffer) k = k buffer hash
next (failed hash) k = failed hash
next deep k = deep

-- The bytes of a string are hashed in the buffer.
unfoldable pub hash_body : ℕ → Reading
hash_body len buffer hash =
    if ltb buffer.left len
    then failed hash
    else hashed (hash_str hash (take len buffer.data_at)) (advance len buffer)

-- `*hash = hash_u32(*hash, n); return true;`
abbrev pub hash_count : ℕ → Reading
hash_count n buffer hash = hashed (hash_u32 hash n) buffer

unfoldable pub loop_array : Reading → ℕ → Reading
loop_array element zero buffer hash = hashed hash buffer
loop_array element (suc n) buffer hash = next (element buffer hash) (loop_array element n)

-- The array for a key has 16 bytes.
unfoldable pub loop_map : Cmp → Reading → ℕ → Reading
loop_map cmp element zero buffer hash = hashed hash buffer
loop_map cmp element (suc n) buffer hash =
    let (ok, key, buffer') = cmp.read_str 16 buffer in
    if ok then next (element buffer' (hash_str hash key)) (loop_map cmp element n) else failed hash

-- The `switch`; `element` is the recursive call.
unfoldable pub switch : Cmp → Reading → CmpObject → Reading
switch cmp element nil buffer hash = hashed (hash_nil hash) buffer
switch cmp element (boolean x) buffer hash = hashed (hash_bool hash x) buffer
switch cmp element (double x) buffer hash = hashed (hash_double hash x) buffer
switch cmp element (unsigned width x) buffer hash = hashed (hash_u64 hash x) buffer
switch cmp element (signed width x) buffer hash = hashed (hash_i64 hash x) buffer
switch cmp element (str width len) buffer hash = hash_body len buffer hash
switch cmp element (array width n) buffer hash =
    next (loop_array element n buffer hash) (hash_count n)
switch cmp element (map width n) buffer hash =
    next (loop_map cmp element n buffer hash) (hash_count n)
switch cmp element other buffer hash = failed hash

unfoldable pub hash_element : Cmp → ℕ → Reading
hash_element cmp zero buffer hash = deep
hash_element cmp (suc fuel) buffer hash =
    let (ok, object, buffer') = cmp.read_object buffer in
    if ok then switch cmp (hash_element cmp fuel) object buffer' hash else failed hash

-- What `run_test` returns, with `*hash_out`; `none` for a recursion deeper than the fuel.
abbrev pub finished : Outcome → Option (Bool × ℕ)
finished (hashed hash buffer) = some (true, hash)
finished (failed hash) = some (false, hash)
finished deep = none

-- `cmp_init` has cmp read from the copy with `buffer_cmp_reader`, up to the size of the file.
unfoldable pub run_test : Malloc → (Reader → Cmp) → ℕ → List ℕ → ℕ → Option (Bool × ℕ)
run_test malloc cmp_init fuel file_data hash = elim (benchmark_in_situ_copy malloc file_data) [
  | none ↦ some (false, hash)
  | some data_copy ↦ finished (
      hash_element (cmp_init buffer_cmp_reader) fuel
        (record { data_at = data_copy; left = length file_data }) hash)
]

-- The functions for `go`. `is_benchmark` returns true.
unfoldable pub setup_test : Libc → ℕ → Holding → Bool × Holding
unfolding load_data_file
setup_test libc object_size w = assign_file (load_data_file libc format_messagepack object_size w)

unfoldable pub teardown_test : Holding → Holding
teardown_test w = free_file w
