-- ===== src/Yajl/Parse/Tests.antt =====
-- A map in an array, and too many arrays in each other.
use schemaless_benchmarks.Base.{ℕ, zero, suc, ◌≡◌, refl, true, none, false, [], ◌∷◌, arith}
use schemaless_benchmarks.Hash.{hash_initial_value}
use schemaless_benchmarks.Benchmark.{Held}
use schemaless_benchmarks.Benchmark.Go.{scored}
use schemaless_benchmarks.Benchmark.Load.{format_json}
use schemaless_benchmarks.Benchmark.Load.Laws.{go_by, timed_by}
use schemaless_benchmarks.Benchmark.Load.Samples.{disk, on_disk, clock, nothing_held, few}
use schemaless_benchmarks.Yajl.Parse.Timed.{go-yajl_parse}
use schemaless_benchmarks.HashObject
use schemaless_benchmarks.Object.{Object, uint, array, map, no_elements, element, no_entries, entry}
use schemaless_benchmarks.Writer.{events}
use schemaless_benchmarks.Yajl.Parse.{Memory, Text, run_test, test}
use schemaless_benchmarks.Object.Nesting.{nesting}
use schemaless_benchmarks.Yajl.Parse.Laws.Deep.{callbacks}
use schemaless_benchmarks.Yajl.Parse.Laws.Document.{run_test-yajl_parse, run_test-too_deep}

abbrev object : Object
object =
    array (element (map (entry (b'k' ∷ []) (uint 7) no_entries)) (element (uint 8) no_elements))

abbrev arrays : ℕ → Object
arrays zero = uint 7
arrays (suc n) = array (element (arrays n) no_elements)

abbrev text_of : Object → Text
text_of o = record { callbacks = callbacks (events o); complete = true }

abbrev holding : Held
holding = record { copies = 2; values = 0 }

abbrev old : Memory
old i = 99

run_test-yajl_parse_example :
    run_test true (λ size. true) (λ bytes size. text_of object) old (1 ∷ []) 15373 holding
    ≡ (true, HashObject.hash_object object 15373, holding)
unfolding nesting
run_test-yajl_parse_example =
    run_test-yajl_parse true (λ size. true) (λ bytes size. text_of object) old (1 ∷ []) object 15373
      holding refl refl (omega arith)

run_test-too_deep_example :
    ((run_test true (λ size. true) (λ bytes size. text_of (arrays 33)) old (1 ∷ []) 15373 holding).0
      ≡ false)
    × ((run_test true
          (λ size. true)
          (λ bytes size. text_of (arrays 33))
          old
          (1 ∷ [])
          15373
          holding).2
        ≡ holding)
unfolding nesting
run_test-too_deep_example =
    run_test-too_deep true (λ size. true) (λ bytes size. text_of (arrays 33)) old (1 ∷ [])
      (arrays 33) 15373 holding refl refl (omega arith)

go-yajl_parse_example :
    go_by clock
      (test false (disk (1 ∷ 2 ∷ [])) (λ size. true) (λ bytes size. text_of object) old)
      5
      nothing_held
    ≡ scored
        (HashObject.hash_object object hash_initial_value)
        (timed_by clock 5)
        (record nothing_held { file_data = 1 ∷ 2 ∷ [] })
unfolding nesting
go-yajl_parse_example =
    go-yajl_parse false clock (disk (1 ∷ 2 ∷ [])) (λ size. true) (λ bytes size. text_of object) old
      5 (1 ∷ 2 ∷ []) object nothing_held few (on_disk format_json (1 ∷ 2 ∷ []) 5 none) refl refl
      (omega arith)
