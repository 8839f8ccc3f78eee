-- ===== src/Benchmark/Load.antt =====
-- src/common/benchmark.c: the names of the data files, and `load_file` with the functions that call it. The file
-- system and `snprintf` are a parameter. `malloc` is taken to succeed, as the code takes it to.
pub mod Laws
pub mod Samples
mod Tests
use schemaless_benchmarks.Base.{
  ℕ, ◌+◌, ◌-◌, ◌==◌, Bool, true, false, Option, none, some, List, [], ◌∷◌, ◌++◌, length, take,
  if◌then◌else◌,
}
use schemaless_benchmarks.Benchmark.{Held}
use schemaless_benchmarks.Benchmark.Go.{Test}

-- The contents of the file with a name, if `fopen` opens it; how many bytes of a file `fread` delivers; and the
-- digits that `snprintf` prints for `%i`.
pub record Libc : Type 0 where
  pub fopen : List ℕ → Option (List ℕ)
  pub fread : List ℕ → ℕ
  pub decimal : ℕ → List ℕ

abbrev pub format_messagepack : List ℕ
format_messagepack = b'm' ∷ b'p' ∷ []

abbrev pub format_json : List ℕ
format_json = b'j' ∷ b's' ∷ b'o' ∷ b'n' ∷ []

abbrev pub format_ubjson : List ℕ
format_ubjson = b'u' ∷ b'b' ∷ b'j' ∷ b's' ∷ b'o' ∷ b'n' ∷ []

abbrev pub format_bson : List ℕ
format_bson = b'b' ∷ b's' ∷ b'o' ∷ b'n' ∷ []

abbrev pub format_binn : List ℕ
format_binn = b'b' ∷ b'i' ∷ b'n' ∷ b'n' ∷ []

-- The configuration of UBJSON without counts.
abbrev pub unopt : List ℕ
unopt = b'-' ∷ b'u' ∷ b'n' ∷ b'o' ∷ b'p' ∷ b't' ∷ []

abbrev pub config_name : Option (List ℕ) → List ℕ
config_name none = []
config_name (some config) = config

-- "build/data"
abbrev pub data_name : List ℕ
data_name = b'b' ∷ b'u' ∷ b'i' ∷ b'l' ∷ b'd' ∷ b'/' ∷ b'd' ∷ b'a' ∷ b't' ∷ b'a' ∷ []

-- `snprintf(buf, size, "build/data%s-%i.%s", …)`, which leaves room for a null.
unfoldable pub benchmark_filename : (ℕ → List ℕ) → ℕ → ℕ → List ℕ → Option (List ℕ) → List ℕ
benchmark_filename decimal size object_size format config =
    take (size - 1)
      (data_name ++ (config_name config ++ (b'-' ∷ (decimal object_size ++ (b'.' ∷ format)))))

-- The variables of a test that reads a file, with the numbers of open files and of the blocks that are
-- kept, and what its runs hold.
pub record Holding : Type 0 where
  pub file_data : List ℕ
  pub open_files : ℕ
  pub blocks : ℕ
  pub held : Held

-- `ftell` gives the length of the contents. Where `fread` delivers less, the function returns at once.
unfoldable pub load_file : Libc → List ℕ → Holding → Option (List ℕ) × Holding
load_file libc filename w = elim (libc.fopen filename) [
  | none ↦ (none, w)
  | some contents ↦
      let opened = record w { open_files = w.open_files + 1; blocks = w.blocks + 1 } in
      if libc.fread contents == length contents
      then (some contents, record opened { open_files = opened.open_files - 1 })
      else (none, opened)
]

unfoldable pub load_data_file_ex :
    Libc → List ℕ → ℕ → Option (List ℕ) → Holding → Option (List ℕ) × Holding
load_data_file_ex libc format object_size config w =
    load_file libc (benchmark_filename libc.decimal 64 object_size format config) w

unfoldable pub load_data_file : Libc → List ℕ → ℕ → Holding → Option (List ℕ) × Holding
load_data_file libc format object_size w = load_data_file_ex libc format object_size none w

-- `file_data = …; if (!file_data) return false; return true;`, with no bytes for a null pointer.
unfoldable pub assign_file : Option (List ℕ) × Holding → Bool × Holding
assign_file (none, w) = (false, record w { file_data = [] })
assign_file (some contents, w) = (true, record w { file_data = contents })

-- `free(file_data);`
unfoldable pub free_file : Holding → Holding
free_file w = record w { blocks = w.blocks - 1 }

-- A test that parses `file_data` and leaves it as it is.
unfoldable pub file_test :
    (ℕ → Holding → Bool × Holding)
    → (List ℕ → ℕ → Held → Bool × ℕ × Held)
    → (Holding → Holding)
    → Test Holding
file_test setup_test run_test teardown_test = record {
  setup_test = setup_test;
  is_benchmark = true;
  run_test = λ hash w.
      let (ok, hash', held') = run_test w.file_data hash w.held in
      (ok, hash', record w { held = held' });
  teardown_test = teardown_test;
}
