-- ===== src/Binn/Write/Tests.antt =====
-- Writing a map in an array.
use schemaless_benchmarks.Base.{◌≡◌, true, some}
use schemaless_benchmarks.Hash.{hash_str}
use schemaless_benchmarks.Object.{Object}
use schemaless_benchmarks.Binn.Write.{run_test}
use schemaless_benchmarks.Binn.Write.Library.{Holds}
use schemaless_benchmarks.Binn.Write.Laws.{run_test-binn_write}
use schemaless_benchmarks.Binn.Samples.{toy, toy_keeps}
use schemaless_benchmarks.Object.Samples.{sample, sample-IsGenerated}

run_test-binn_write_example :
    (b : Object) × (run_test toy sample 15373 ≡ some (true, hash_str 15373 (toy.bytes b)))
    × Holds toy_keeps b sample
run_test-binn_write_example = run_test-binn_write toy toy_keeps sample 15373 sample-IsGenerated tt
