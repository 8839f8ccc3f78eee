-- ===== src/Benchmark/Load/Laws.antt =====
-- Loading a data file, and `go` on a test that parses it.
use schemaless_benchmarks.Base.{
  ℕ, suc, ◌+◌, ◌-◌, ◌*◌, ◌<◌, ◌≡◌, ◌≢◌, refl, ap, ◌∙◌, arith, ◌==◌, ==_iff, Bool, Bool-cases, true,
  inl, inr, Option, none, some, List, length,
}
use schemaless_benchmarks.Hash.{hash_initial_value}
use schemaless_benchmarks.Benchmark.{Held}
use schemaless_benchmarks.Benchmark.Go.{Test, Ending, scored, go, iterations_for}
use schemaless_benchmarks.Benchmark.Go.Laws.{Ends}
use schemaless_benchmarks.Benchmark.Go.Steady.{IsSteady, go-IsSteady}
use schemaless_benchmarks.Benchmark.Load.{
  Libc, benchmark_filename, Holding, load_file, load_data_file_ex, assign_file, free_file,
  file_test,
}

-- The file of a format, a size and a configuration can be opened and read whole, and these are its bytes.
pub record IsOnDisk (libc : Libc) (format : List ℕ) (object_size : ℕ) (config : Option (List ℕ))
    (bytes : List ℕ) : Type 0 where
  pub opened :
      libc.fopen (benchmark_filename libc.decimal 64 object_size format config) ≡ some bytes
  pub whole : libc.fread bytes ≡ length bytes

-- A file that can be opened but not read whole stays open, and its block is kept.
pub load_file_leaks :
    (libc : Libc) (filename contents : List ℕ) (w : Holding)
    → libc.fopen filename ≡ some contents
    → libc.fread contents ≢ length contents
    → load_file libc filename w
      ≡ (none, record w { open_files = w.open_files + 1; blocks = w.blocks + 1 })
unfolding load_file
load_file_leaks libc filename contents w opened short =
    elim (Bool-cases (libc.fread contents == length contents)) [
      | inl e ↦ absurd (short ((==_iff (libc.fread contents) (length contents)).0 e))
      | inr e ↦ rw (load_file, opened, e) refl
    ]

pub load_file-IsOnDisk :
    (libc : Libc) (filename bytes : List ℕ) (w : Holding)
    → libc.fopen filename ≡ some bytes
    → libc.fread bytes ≡ length bytes
    → load_file libc filename w ≡ (some bytes, record w { blocks = w.blocks + 1 })
unfolding load_file
load_file-IsOnDisk libc filename bytes w opened whole =
    let same = (==_iff (libc.fread bytes) (length bytes)).1 whole in
    let closed : w.open_files + 1 - 1 ≡ w.open_files = omega arith in
    rw (load_file, opened, same, closed) refl

-- The variables with a file loaded.
abbrev pub with_file : List ℕ → Holding → Holding
with_file bytes w = record w { file_data = bytes; blocks = w.blocks + 1 }

pub setup-IsOnDisk :
    (libc : Libc) (format : List ℕ) (object_size : ℕ) (config : Option (List ℕ)) (bytes : List ℕ)
    (w : Holding)
    → IsOnDisk libc format object_size config bytes
    → assign_file (load_data_file_ex libc format object_size config w) ≡ (true, with_file bytes w)
unfolding load_data_file_ex assign_file
setup-IsOnDisk libc format object_size config bytes w on_disk =
    rw
      (
        load_file-IsOnDisk libc (benchmark_filename libc.decimal 64 object_size format config) bytes
            w on_disk.opened on_disk.whole,
        assign_file,
      )
      refl

-- A test that parses a file: with the file on disk, and runs that hash its bytes by `f`, it is scored with the hash
-- that `f` gives for the initial value, and leaves no file open, no block and nothing that its runs hold.
pub go-file_test :
    (setup_test : ℕ → Holding → Bool × Holding) (run_test : List ℕ → ℕ → Held → Bool × ℕ × Held)
    (teardown_test : Holding → Holding) (f : ℕ → ℕ) (warming working : ℕ → Bool)
    (m₁ m₂ fuel object_size : ℕ) (bytes : List ℕ) (w : Holding)
    → setup_test object_size w ≡ (true, with_file bytes w)
    → teardown_test (with_file bytes w) ≡ free_file (with_file bytes w)
    → ((h : ℕ) (held : Held) → run_test bytes h held ≡ (true, f h, held))
    → Ends warming 0 m₁
    → Ends working 0 m₂
    → m₁ < fuel
    → m₂ < fuel
    → go (file_test setup_test run_test teardown_test) warming working fuel object_size w
      ≡ scored
          (f hash_initial_value)
          (suc m₂ * iterations_for object_size)
          (record w { file_data = bytes })
unfolding file_test free_file
go-file_test setup_test run_test teardown_test f warming working m₁ m₂ fuel object_size bytes w
      set_up torn_down runs warm work p q =
    let steady : IsSteady (file_test setup_test run_test teardown_test) f (with_file bytes w) =
      λ h. rw (runs h w.held) refl in
    let freed : w.blocks + 1 - 1 ≡ w.blocks = omega arith in
    go-IsSteady (file_test setup_test run_test teardown_test) f warming working m₁ m₂ fuel
      object_size w (with_file bytes w) set_up refl steady warm work p q
    ∙ ap (λ left. scored (f hash_initial_value) (suc m₂ * iterations_for object_size) left)
        (torn_down ∙ rw freed refl)

-- The clock in a call of `go`: after how many batches the warm up and the timed part end, in the given rounds.
pub record Clock : Type 0 where
  pub warming : ℕ → Bool
  pub working : ℕ → Bool
  pub warm_rounds : ℕ
  pub work_rounds : ℕ
  pub fuel : ℕ
  pub warm : Ends warming 0 warm_rounds
  pub work : Ends working 0 work_rounds
  pub warm_below : warm_rounds < fuel
  pub work_below : work_rounds < fuel

-- `go` by such a clock.
abbrev pub go_by : {W : Type 0} → Clock → Test W → ℕ → W → Ending W
go_by clock test object_size w = go test clock.warming clock.working clock.fuel object_size w

-- The iterations that are timed by such a clock.
abbrev pub timed_by : Clock → ℕ → ℕ
timed_by clock object_size = suc clock.work_rounds * iterations_for object_size

-- `go` by a clock, on a test that parses a file which is on disk.
pub go_by-file_test :
    (clock : Clock) (libc : Libc) (format : List ℕ) (config : Option (List ℕ))
    (run_test : List ℕ → ℕ → Held → Bool × ℕ × Held) (f : ℕ → ℕ) (object_size : ℕ) (bytes : List ℕ)
    (w : Holding)
    → IsOnDisk libc format object_size config bytes
    → ((h : ℕ) (held : Held) → run_test bytes h held ≡ (true, f h, held))
    → go_by clock
        (file_test
          (λ size v. assign_file (load_data_file_ex libc format size config v))
          run_test
          free_file)
        object_size
        w
      ≡ scored (f hash_initial_value) (timed_by clock object_size) (record w { file_data = bytes })
go_by-file_test clock libc format config run_test f object_size bytes w on_disk runs =
    go-file_test (λ size v. assign_file (load_data_file_ex libc format size config v)) run_test
      free_file f clock.warming clock.working clock.warm_rounds clock.work_rounds clock.fuel
      object_size bytes w (setup-IsOnDisk libc format object_size config bytes w on_disk) refl runs
      clock.warm clock.work clock.warm_below clock.work_below
