-- ===== src/Mpack/File/Tests.antt =====
-- A file with a list and a map, written and read.
use schemaless_benchmarks.Base.{ℕ, ◌≡◌, refl, arith, true, some, List, []}
use schemaless_benchmarks.HashObject.{hash_object}
use schemaless_benchmarks.Object.Nesting.{nesting}
use schemaless_benchmarks.Benchmark.Load.Laws.{with_file}
use schemaless_benchmarks.Benchmark.Load.Samples.{nothing_held}
use schemaless_benchmarks.Benchmark.Store.{Disk, reading}
use schemaless_benchmarks.Benchmark.Store.Samples.{roomy, blank}
use schemaless_benchmarks.Mpack.Read as Read
use schemaless_benchmarks.Mpack.Read.Samples.{
  mpack, bytes_of, Holds, back, append_bytes, object, object-Fits,
}
use schemaless_benchmarks.Mpack.File.{FileWriter, setup_test}
use schemaless_benchmarks.Mpack.File.Laws.{mpack_read-mpack_file}

abbrev writer : FileWriter (List ℕ)
writer = record {
  init_file = λ opened. [];
  perform = append_bytes;
  contents = λ w. w;
  is_ok = λ w. true;
}

mpack_read-mpack_file_example :
    (bytes : List ℕ) × (written : Disk) × (setup_test writer roomy object 3 blank ≡ (true, written))
    × (written.open_files ≡ 0)
    × (Read.setup_test (reading roomy written) 3 nothing_held
        ≡ (true, with_file bytes nothing_held))
    × (Read.run_test mpack (λ size. true) 3 bytes 15373 ≡ some (true, hash_object object 15373))
unfolding nesting
mpack_read-mpack_file_example =
    mpack_read-mpack_file writer mpack bytes_of Holds roomy (λ size. true) 3 3 15373 object blank
      nothing_held
      (record {
        empty = refl;
        adds = λ c w. (refl, refl);
        fine = refl;
        stays_fine = λ c w fine. refl;
      })
      back (λ bytes. record { opened = refl; stored = refl; delivered = refl }) (λ n. refl)
      object-Fits (omega arith)
