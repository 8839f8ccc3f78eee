-- ===== src/Ubj/Read.antt =====
-- src/ubj/ubj-read.c: `hash_value`, the hash of what ubj has read.
pub mod Laws
mod Tests
use schemaless_benchmarks.Base.{
  ℕ, zero, suc, ◌+◌, Bool, true, false, if◌then◌else◌, Option, none, some, List, [], ◌∷◌, length,
  u32, ℤ,
}
use schemaless_benchmarks.Hash.{hash_bool, hash_double, hash_i64, hash_nil, hash_str, hash_u32}
use schemaless_benchmarks.Benchmark.Load.{
  Libc, Holding, load_data_file_ex, assign_file, free_file, format_ubjson, unopt,
}
use schemaless_benchmarks.Benchmark.{Malloc, benchmark_in_situ_copy}
use schemaless_benchmarks.Parser.{c_str}

-- The integer types UBJ_INT8, UBJ_UINT8, UBJ_INT16, UBJ_INT32 and UBJ_INT64.
pub data Width : Type 0 where
  int8 : Width
  uint8 : Width
  int16 : Width
  int32 : Width
  int64 : Width

-- What stands at an index of `data` for its `type`. `mixed` is a `ubjr_dynamic_t` with what it holds for its own
-- type. The values of an array and of an object are those at the indices of their `values`; all of them have
-- the container's type. `other` is each type that the `switch` leaves to its default.
mutual
  pub data Value : Type 0 where
    mixed : Value → Value
    nulltype : Value
    bool_true : Value
    bool_false : Value
    float64 : ℕ → Value
    integer : Width → ℤ → Value
    string : List ℕ → Value
    char : List ℕ → Value
    array : Values → Value
    object : Fields → Value
    other : Value

  pub data Values : Type 0 where
    no_values : Values
    value : Value → Values → Values

  pub data Fields : Type 0 where
    no_fields : Fields
    field : List ℕ → Value → Fields → Fields

abbrev pub value_count : Values → ℕ
value_count no_values = 0
value_count (value x xs) = suc (value_count xs)

abbrev pub field_count : Fields → ℕ
field_count no_fields = 0
field_count (field k x xs) = suc (field_count xs)

-- A function that changes `*hash`. `none` is a read through a null pointer.
abbrev pub Hashing : Type 0
Hashing = ℕ → Option ℕ

abbrev pub proceed : Option ℕ → Hashing → Option ℕ
proceed none k = none
proceed (some hash) k = k hash

infixl 5 ◌>>◌
abbrev pub ◌>>◌ : Hashing → Hashing → Hashing
m >> k = λ hash. proceed (m hash) k

abbrev pub update : (ℕ → ℕ) → Hashing
update f hash = some (f hash)

-- A dynamic of a type that has no member in its union is hashed as `hash_value(NULL, dynamic->type, 0, hash)`.
abbrev pub dynamic : Value → Hashing → Hashing
dynamic (mixed x) recur hash = none
dynamic (char s) recur hash = none
dynamic _ recur hash = recur hash

unfoldable mutual
  pub hash_value : Value → Hashing
  hash_value (mixed x) = dynamic x (hash_value x)
  hash_value nulltype = update hash_nil
  hash_value bool_true = update (λ h. hash_bool h true)
  hash_value bool_false = update (λ h. hash_bool h false)
  hash_value (float64 x) = update (λ h. hash_double h x)
  hash_value (integer width x) = update (λ h. hash_i64 h x)
  hash_value (string s) = update (λ h. hash_str h (c_str s))
  hash_value (char s) = update (λ h. hash_str h (c_str s))
  hash_value (array xs) = hash_array xs >> update (λ h. hash_u32 h (u32 (value_count xs)))
  hash_value (object xs) = hash_object xs >> update (λ h. hash_u32 h (u32 (field_count xs)))
  hash_value other = update (λ h. h)

  pub hash_array : Values → Hashing
  hash_array no_values = update (λ h. h)
  hash_array (value x xs) = hash_value x >> hash_array xs

  pub hash_object : Fields → Hashing
  hash_object no_fields = update (λ h. h)
  hash_object (field k x xs) =
      update (λ h. hash_str h (c_str k)) >> (hash_value x >> hash_object xs)

-- `ubjr_read_dynamic` of the copy, up to the size of the file. No error is looked at.
unfoldable pub run_test : Malloc → (List ℕ → ℕ → Value) → List ℕ → ℕ → Option (Bool × ℕ)
run_test malloc ubjr_read_dynamic file_data hash = elim (benchmark_in_situ_copy malloc file_data) [
  | none ↦ some (false, hash)
  | some data_copy ↦
      elim (hash_value (mixed (ubjr_read_dynamic data_copy (length file_data))) hash) [
        | none ↦ none
        | some hash' ↦ some (true, hash')
      ]
]

-- The functions for `go`. `optimized` is BENCHMARK_UBJ_OPTIMIZED. `is_benchmark` returns true.
unfoldable pub setup_test : Libc → Bool → ℕ → Holding → Bool × Holding
setup_test libc optimized object_size w =
    assign_file
      (load_data_file_ex libc format_ubjson object_size (if optimized then none else some unopt) w)

unfoldable pub teardown_test : Holding → Holding
teardown_test w = free_file w
