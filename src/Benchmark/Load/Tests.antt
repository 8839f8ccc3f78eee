-- ===== src/Benchmark/Load/Tests.antt =====
-- Names of data files, and a file that cannot be read whole.
use schemaless_benchmarks.Base.{ℕ, ◌+◌, ◌≡◌, refl, arith, none, some, List, [], ◌∷◌}
use schemaless_benchmarks.Benchmark.Load.{Libc, load_file, benchmark_filename, format_json}
use schemaless_benchmarks.Benchmark.Load.Laws.{load_file_leaks}
use schemaless_benchmarks.Benchmark.Load.Samples.{nothing_held}

abbrev digits : ℕ → List ℕ
digits n = (48 + n) ∷ []

abbrev cut_short : Libc
cut_short = record {
  fopen = λ filename. some (1 ∷ 2 ∷ []);
  fread = λ contents. 1;
  decimal = digits;
}

-- "build/data-3.json"
name_of_json :
    benchmark_filename digits 64 3 format_json none
    ≡ b'b' ∷ b'u' ∷ b'i' ∷ b'l' ∷ b'd' ∷ b'/' ∷ b'd' ∷ b'a' ∷ b't' ∷ b'a' ∷ b'-' ∷ b'3' ∷ b'.'
      ∷ format_json
unfolding benchmark_filename
name_of_json = refl

load_file_leaks_example : load_file cut_short [] nothing_held ≡ (
  none,
  record { file_data = []; open_files = 1; blocks = 1; held = record { copies = 0; values = 0 } },
)
load_file_leaks_example =
    load_file_leaks cut_short [] (1 ∷ 2 ∷ []) nothing_held refl (λ e. omega (arith, e))
