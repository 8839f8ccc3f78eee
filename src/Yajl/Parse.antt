-- ===== src/Yajl/Parse.antt =====
-- src/yajl/yajl-parse.c: the callbacks of YAJL's event parser. `parser_t` is 34 words in a row: the hash,
-- the depth and the 32 counts of children. The callbacks count the root of a document in
-- `children[depth]` with a depth of -1. C leaves this access undefined; in a flat memory it is the word
-- before the array, which is the depth, and this is how it is modelled.
pub mod Laws
pub mod Timed
mod Tests
use schemaless_benchmarks.Base.{
  ℕ, ◌+◌, ◌-◌, ◌^◌, ◌%◌, Bool, true, false, ◌&&◌, ◌==◌, Option, none, some, List, [], ◌∷◌, leb, u32,
  if◌then◌else◌, ℤ, length,
}
use schemaless_benchmarks.Hash.{hash_bool, hash_double, hash_i64, hash_nil, hash_str, hash_u32}
use schemaless_benchmarks.Benchmark.Go.{Test}
use schemaless_benchmarks.Benchmark.Load.{
  Libc, Holding, load_data_file, assign_file, free_file, file_test, format_json,
}
use schemaless_benchmarks.Benchmark.{
  Malloc, benchmark_in_situ_copy, Held, copied, benchmark_in_situ_free, made, destroyed, ending,
}
use schemaless_benchmarks.Parser.{Hashing}
use schemaless_benchmarks.Writer.{Writing, perform_all}

-- The words of a `parser_t`, by their index.
abbrev pub Memory : Type 0
Memory = ℕ → ℕ

abbrev pub store : ℕ → ℕ → Memory → Memory
store place word parser i = if i == place then word else parser i

abbrev pub hash_of : Memory → ℕ
hash_of parser = parser 0

abbrev pub depth_of : Memory → ℕ
depth_of parser = parser 1

-- Where `children[i]` is, for the 32-bit pattern of a signed `i`.
abbrev pub children : ℕ → ℕ
children i = u32 (2 + i)

-- `++parser->children[parser->depth];` For the root `depth` is -1, and C leaves an element before an array undefined.
-- It is the word before `children`, which is `depth` itself.
unfoldable pub count_child : Memory → Memory
count_child parser =
    let place = children (depth_of parser) in store place (u32 (parser place + 1)) parser

unfoldable pub parser_init : ℕ → Memory → Memory
parser_init initial_value parser = store 1 (2 ^ 32 - 1) (store 0 initial_value parser)

-- The callback that YAJL calls, with its arguments.
pub data Callback : Type 0 where
  null : Callback
  boolean : Bool → Callback
  integer : ℤ → Callback
  double : ℕ → Callback
  string : List ℕ → Callback
  start_map : Callback
  map_key : List ℕ → Callback
  end_map : Callback
  start_array : Callback
  end_array : Callback

-- `parser->hash = f(parser->hash); return 1;`
abbrev pub update : (ℕ → ℕ) → Writing Memory
update f parser = (true, store 0 (f (hash_of parser)) parser)

-- `parser->depth + 1` is converted to an unsigned word before it is compared with 32. Whether `depth` was read before
-- or after the child was counted makes a difference at the root alone, where C leaves it undefined: `in_register` is
-- true for a build that has it in a register by then, and false for one that reads it from the memory again.
unfoldable pub parse_start_compound : Bool → Writing Memory
unfolding count_child
parse_start_compound in_register parser =
    let counted = count_child parser in
    let depth = if in_register then depth_of parser else depth_of counted in
    let deeper = u32 (depth + 1) in
    if leb 32 deeper
    then (false, counted)
    else (true, store (children deeper) 0 (store 1 deeper counted))

unfoldable pub parse_end_compound : Writing Memory
parse_end_compound parser =
    let hashed = store 0 (hash_u32 (hash_of parser) (parser (children (depth_of parser)))) parser in
    (true, store 1 (u32 (depth_of hashed + (2 ^ 32 - 1))) hashed)

-- The table `callbacks`: a map and an array begin and end alike.
unfoldable pub dispatch : Bool → Callback → Writing Memory
dispatch in_register null parser = update hash_nil (count_child parser)
dispatch in_register (boolean x) parser = update (λ h. hash_bool h x) (count_child parser)
dispatch in_register (integer x) parser = update (λ h. hash_i64 h x) (count_child parser)
dispatch in_register (double x) parser = update (λ h. hash_double h x) (count_child parser)
dispatch in_register (string x) parser = update (λ h. hash_str h x) (count_child parser)
dispatch in_register (map_key x) parser = update (λ h. hash_str h x) parser
dispatch in_register start_map parser = parse_start_compound in_register parser
dispatch in_register end_map parser = parse_end_compound parser
dispatch in_register start_array parser = parse_start_compound in_register parser
dispatch in_register end_array parser = parse_end_compound parser

-- What YAJL finds in a text: the callbacks that it makes in turn until one returns 0, and whether the
-- text is a whole document.
pub record Text : Type 0 where
  pub callbacks : List Callback
  pub complete : Bool

-- `yajl_parse` and `yajl_complete_parse` read the file, not the copy. `rest` is what the memory of the
-- parser holds before it is set up.
unfoldable pub run_test :
    Bool → Malloc → (List ℕ → ℕ → Text) → Memory → List ℕ → ℕ → Held → Bool × ℕ × Held
run_test in_register malloc yajl_parse rest file_data hash held =
    elim (benchmark_in_situ_copy malloc file_data) [
      | none ↦ (false, hash, held)
      | some data_copy ↦
          let text = yajl_parse file_data (length file_data) in
          let (ok, parser) =
            perform_all (dispatch in_register) text.callbacks (parser_init hash rest) in
          (
            ok && text.complete,
            hash_of parser,
            benchmark_in_situ_free (destroyed (made (copied held))),
          )
    ]

-- The functions for `go`. `is_benchmark` returns true.
unfoldable pub setup_test : Libc → ℕ → Holding → Bool × Holding
unfolding load_data_file
setup_test libc object_size w = assign_file (load_data_file libc format_json object_size w)

unfoldable pub teardown_test : Holding → Holding
teardown_test w = free_file w

-- Each run starts with what the memory of the parser held.
unfoldable pub test : Bool → Libc → Malloc → (List ℕ → ℕ → Text) → Memory → Test Holding
unfolding setup_test teardown_test
test in_register libc malloc yajl_parse rest =
    file_test (setup_test libc) (run_test in_register malloc yajl_parse rest) teardown_test
