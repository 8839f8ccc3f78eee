-- ===== src/Benchmark/Load/Samples.antt =====
-- A disk on which each name is a file of the same bytes, and a clock of one batch more than the least.
use schemaless_benchmarks.Base.{
  ◌<◌, ◌^◌, ℕ, ◌+◌, refl, arith, Bool, ltb, Option, some, List, [], ◌∷◌, length,
}
use schemaless_benchmarks.Benchmark.Go.{shift_iterations}
use schemaless_benchmarks.Benchmark.Load.{Libc, Holding}
use schemaless_benchmarks.Benchmark.Load.Laws.{IsOnDisk, Clock, timed_by}

abbrev pub disk : List ℕ → Libc
disk bytes = record {
  fopen = λ filename. some bytes;
  fread = λ contents. length contents;
  decimal = λ n. (48 + n) ∷ [];
}

pub on_disk :
    (format bytes : List ℕ) (object_size : ℕ) (config : Option (List ℕ))
    → IsOnDisk (disk bytes) format object_size config bytes
on_disk format bytes object_size config = record { opened = refl; whole = refl }

abbrev pub after_one : ℕ → Bool
after_one k = ltb 0 k

abbrev pub clock : Clock
clock = record {
  warming = after_one;
  working = after_one;
  warm_rounds = 1;
  work_rounds = 1;
  fuel = 2;
  warm = (refl, refl);
  work = (refl, refl);
  warm_below = omega arith;
  work_below = omega arith;
}

abbrev pub nothing_held : Holding
nothing_held = record {
  file_data = [];
  open_files = 0;
  blocks = 0;
  held = record { copies = 0; values = 0 };
}

pub few : timed_by clock 5 < 2 ^ 31
unfolding shift_iterations
few = omega arith

pub few_of_three : timed_by clock 3 < 2 ^ 31
unfolding shift_iterations
few_of_three = omega arith
