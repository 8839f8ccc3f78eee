-- ===== src/HashData/Tests.antt =====
-- Data of the smallest size.
use schemaless_benchmarks.Base.{ℕ, ◌*◌, ◌^◌, ◌<◌, ◌≡◌, arith, All, List, [], length}
use schemaless_benchmarks.Hash.{hash_initial_value, hash_str}
use schemaless_benchmarks.Benchmark.Go.{scored}
use schemaless_benchmarks.Benchmark.Load.Laws.{go_by, timed_by}
use schemaless_benchmarks.Benchmark.Load.Samples.{clock}
use schemaless_benchmarks.HashData.{Data, test}
use schemaless_benchmarks.HashData.Laws.{go-hash_data}

abbrev rand : ℕ → ℕ
rand i = i * 7

abbrev no_data : Data
no_data = record { hash_data = []; blocks = 0 }

go-hash_data_example :
    (bytes : List ℕ) × (length bytes ≡ 100 * 8 ^ 1)
    × All (λ b. b < 256) bytes
    × (go_by clock (test rand) 1 no_data
        ≡ scored
            (hash_str hash_initial_value bytes)
            (timed_by clock 1)
            (record no_data { hash_data = bytes }))
go-hash_data_example = go-hash_data clock rand 1 no_data (omega arith)
