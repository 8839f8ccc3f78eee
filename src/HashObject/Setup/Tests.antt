-- ===== src/HashObject/Setup/Tests.antt =====
-- The hash of a small object.
use schemaless_benchmarks.Base.{ℕ, ◌*◌, ◌^◌, ◌≡◌, refl, arith, true, List, [], length}
use schemaless_benchmarks.Hash.{hash_initial_value}
use schemaless_benchmarks.Object.{nil}
use schemaless_benchmarks.Object.Samples.{sample}
use schemaless_benchmarks.Benchmark.Go.{scored}
use schemaless_benchmarks.Benchmark.Load.Laws.{go_by, timed_by}
use schemaless_benchmarks.Benchmark.Load.Samples.{clock}
use schemaless_benchmarks.HashObject.{hash_object}
use schemaless_benchmarks.HashObject.Setup.{State, test}
use schemaless_benchmarks.HashObject.Setup.Timed.{go-hash_object}

abbrev rand : ℕ → ℕ
rand i = i * 7

abbrev before : State
before = record { root_object = nil; insitu_data = []; objects = 0; blocks = 0 }

go-hash_object_example :
    (bytes : List ℕ) × (length bytes ≡ 100 * 8 ^ 1)
    × (go_by clock (test (λ size. sample) rand (λ size. true)) 1 before
        ≡ scored
            (hash_object sample hash_initial_value)
            (timed_by clock 1)
            (record before { root_object = sample; insitu_data = bytes; blocks = 1 }))
go-hash_object_example =
    go-hash_object clock (λ size. sample) rand (λ size. true) 1 before (omega arith) refl
