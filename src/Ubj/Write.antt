-- ===== src/Ubj/Write.antt =====
-- src/ubj/ubj-write.c: `write_object`, which calls the writer of ubj, and the callbacks that ubj calls.
pub mod Laws
pub mod Document
pub mod Types
pub mod Samples
mod Tests
use schemaless_benchmarks.Benchmark.Root.{Root, create_root, destroy_root}
use schemaless_benchmarks.Base.{
  and_then, ℕ, suc, ◌+◌, ◌==◌, Bool, true, false, ◌||◌, Option, none, some, List, [], ◌∷◌, ◌++◌,
  leb, if◌then◌else◌, take, ℤ,
}
use schemaless_benchmarks.Hash.{hash_str}
use schemaless_benchmarks.Buffer.{Buffer, Realloc, buffer_init, buffer_write}
use schemaless_benchmarks.Generator.Init.{to_signed}
use schemaless_benchmarks.Object.{
  Object, Elements, Entries, nil, bool, double, int, uint, str, array, map, no_elements, element,
  no_entries, entry, count_elements, count_entries,
}
use schemaless_benchmarks.Parser.{c_str}

-- The constants of UBJ_TYPE that the code or `ubjw_min_integer_type` gives.
pub data UbjType : Type 0 where
  ubj_mixed : UbjType
  ubj_nulltype : UbjType
  ubj_bool_true : UbjType
  ubj_bool_false : UbjType
  ubj_string : UbjType
  ubj_float64 : UbjType
  ubj_int8 : UbjType
  ubj_uint8 : UbjType
  ubj_int16 : UbjType
  ubj_int32 : UbjType
  ubj_int64 : UbjType
  ubj_array : UbjType
  ubj_object : UbjType

-- A number for each constant.
abbrev pub number : UbjType → ℕ
number ubj_mixed = 0
number ubj_nulltype = 1
number ubj_bool_true = 2
number ubj_bool_false = 3
number ubj_string = 4
number ubj_float64 = 5
number ubj_int8 = 6
number ubj_uint8 = 7
number ubj_int16 = 8
number ubj_int32 = 9
number ubj_int64 = 10
number ubj_array = 11
number ubj_object = 12

-- The calls `ubjw_…` with their arguments. They return nothing that is looked at.
pub data Call : Type 0 where
  write_null : Call
  write_bool : Bool → Call
  write_float64 : ℕ → Call
  write_integer : ℤ → Call
  write_string : List ℕ → Call
  begin_array : UbjType → ℕ → Call
  begin_object : UbjType → ℕ → Call
  write_key : List ℕ → Call
  end_container : Call

-- The arguments of the writing callback: the bytes at `data`, at least `count` of them, and the counterparts of the
-- arguments of `fwrite`.
pub record Chunk : Type 0 where
  pub data_bytes : List ℕ
  pub size : ℕ
  pub count : ℕ

-- What ubj does in a call, from its own state: with which arguments it calls the writing callback one time after the
-- other, whether it calls the error callback, and its state after that. It ignores what the callbacks return.
pub record Ubjw (L : Type 0) : Type 0 where
  pub chunks : L → Call → List Chunk
  pub complains : L → Call → Bool
  pub after : L → Call → L

-- The buffer and the variable `error_occurred`.
pub record Output : Type 0 where
  pub buffer : Buffer
  pub error_occurred : Bool

abbrev pub error_fn : Output → Output
error_fn output = record output { error_occurred = true }

-- `size` is not looked at. `none` is a loop of `buffer_write` that does not end.
unfoldable pub buffer_ubj_write : Realloc → List ℕ → ℕ → ℕ → Output → Option Output
buffer_ubj_write realloc data_bytes size count output =
    elim (buffer_write realloc output.buffer (take count data_bytes)) [
      | none ↦ none
      | some result ↦
          let written = record output { buffer = result.1 } in
          some (if result.0 then written else error_fn written)
    ]

unfoldable pub write_chunks : Realloc → List Chunk → Output → Option Output
write_chunks realloc [] output = some output
write_chunks realloc (chunk ∷ chunks) output =
    and_then (buffer_ubj_write realloc chunk.data_bytes chunk.size chunk.count output)
      (write_chunks realloc chunks)

-- `get_ubj_type`; what `ubjw_min_integer_type` gives is a parameter.
unfoldable pub get_ubj_type : (ℤ → UbjType) → Object → UbjType
get_ubj_type ubjw_min_integer_type nil = ubj_nulltype
get_ubj_type ubjw_min_integer_type (bool b) = if b then ubj_bool_true else ubj_bool_false
get_ubj_type ubjw_min_integer_type (str s) = ubj_string
get_ubj_type ubjw_min_integer_type (double d) = ubj_float64
get_ubj_type ubjw_min_integer_type (int i) = ubjw_min_integer_type i
get_ubj_type ubjw_min_integer_type (uint u) = ubjw_min_integer_type (to_signed u)
get_ubj_type ubjw_min_integer_type (array xs) = ubj_array
get_ubj_type ubjw_min_integer_type (map es) = ubj_object

module _ (ubjw_min_integer_type : ℤ → UbjType) where
  -- The loops over the children behind the first: `type` until one of them has another.
  unfoldable pub same_elements : UbjType → Elements → UbjType
  same_elements type no_elements = type
  same_elements type (element x xs) =
      let rest = same_elements type xs in
      if number (get_ubj_type ubjw_min_integer_type x) == number type then rest else ubj_mixed

  unfoldable pub same_entries : UbjType → Entries → UbjType
  same_entries type no_entries = type
  same_entries type (entry k x es) =
      let rest = same_entries type es in
      if number (get_ubj_type ubjw_min_integer_type x) == number type then rest else ubj_mixed

  -- The type of two children or more that have all the same.
  unfoldable pub type_of_elements : Elements → UbjType
  type_of_elements (element x (element y xs)) =
      let type = get_ubj_type ubjw_min_integer_type x in
      if number type == number ubj_mixed then ubj_mixed else same_elements type (element y xs)
  type_of_elements _ = ubj_mixed

  unfoldable pub type_of_entries : Entries → UbjType
  type_of_entries (entry k x (entry l y es)) =
      let type = get_ubj_type ubjw_min_integer_type x in
      if number type == number ubj_mixed then ubj_mixed else same_entries type (entry l y es)
  type_of_entries _ = ubj_mixed

  module _ {S : Type 0} (optimized : Bool) (perform : Call → S → Option S) where
    -- `write_object`, which returns true for each type of object. `optimized` is BENCHMARK_UBJ_OPTIMIZED.
    unfoldable mutual
      pub write_object : Object → S → Option S
      write_object nil = perform write_null
      write_object (bool x) = perform (write_bool x)
      write_object (double x) = perform (write_float64 x)
      write_object (int x) = perform (write_integer x)
      write_object (str s) = perform (write_string (c_str s))
      write_object (uint x) = perform (write_integer (to_signed x))
      write_object (array xs) = λ s.
          and_then
            (perform
              (if optimized
                then begin_array (type_of_elements xs) (count_elements xs)
                else begin_array ubj_mixed 0)
              s)
            (λ t. and_then (write_elements xs t) (perform end_container))
      write_object (map es) = λ s.
          and_then
            (perform
              (if optimized
                then begin_object (type_of_entries es) (count_entries es)
                else begin_object ubj_mixed 0)
              s)
            (λ t. and_then (write_entries es t) (perform end_container))

      pub write_elements : Elements → S → Option S
      write_elements no_elements s = some s
      write_elements (element x xs) s = and_then (write_object x s) (write_elements xs)

      pub write_entries : Entries → S → Option S
      write_entries no_entries s = some s
      write_entries (entry k x es) s =
          and_then (perform (write_key (c_str k)) s)
            (λ t. and_then (write_object x t) (write_entries es))

-- A call with ubj's state and the output.
unfoldable pub perform : {L : Type 0} → Ubjw L → Realloc → Call → L × Output → Option (L × Output)
perform ubjw realloc c (l, output) =
    and_then (write_chunks realloc (ubjw.chunks l c) output)
      (λ written. some (ubjw.after l c, if ubjw.complains l c then error_fn written else written))

-- What `run_test` returns, with `*hash_out`. `start` is ubj's state for a new context, and `error_occurred` what
-- an earlier run has left: nothing sets it to false.
unfoldable pub run_test :
    {L : Type 0}
    → (ℤ → UbjType)
    → Bool
    → Ubjw L
    → Realloc
    → L
    → Bool
    → Object
    → ℕ
    → Option (Bool × ℕ)
run_test ubjw_min_integer_type optimized ubjw realloc start error_occurred root_object hash =
    let output : Output = record { buffer = buffer_init; error_occurred = error_occurred } in
    and_then
      (write_object ubjw_min_integer_type optimized (perform ubjw realloc) root_object
        (start, output))
      (λ (state : _ × Output). some (
        if state.1.error_occurred
        then (false, hash)
        else (true, hash_str hash state.1.buffer.contents)))

-- The other functions of the test; `create` is the object that `benchmark_object_create` gives for a size.
unfoldable pub setup_test : (ℕ → Object) → ℕ → Root → Bool × Root
setup_test create object_size w = create_root (create object_size) w

unfoldable pub teardown_test : Root → Root
teardown_test w = destroy_root w
