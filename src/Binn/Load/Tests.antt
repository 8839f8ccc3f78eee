-- ===== src/Binn/Load/Tests.antt =====
-- A list of one number, and one whose count is wrong.
use schemaless_benchmarks.Base.{ℕ, ◌≡◌, refl, true, none, [], ◌∷◌}
use schemaless_benchmarks.Hash.{hash_initial_value}
use schemaless_benchmarks.Benchmark.Go.{scored}
use schemaless_benchmarks.Benchmark.Load.{format_binn}
use schemaless_benchmarks.Benchmark.Load.Laws.{go_by, timed_by}
use schemaless_benchmarks.Benchmark.Load.Samples.{disk, on_disk, clock, nothing_held, few}
use schemaless_benchmarks.Binn.Load.Timed.{go-binn_load}
use schemaless_benchmarks.HashObject
use schemaless_benchmarks.Object.{Object, uint, array, no_elements, element}
use schemaless_benchmarks.Binn.Load.{Leaf, Value, leaf, list, no_items, item, test, value}

abbrev counted : ℕ → Value
counted n = list (record { count = n; opens = true }) (item (leaf (Leaf.uint8 7)) no_items)

abbrev object : Object
object = array (element (uint 7) no_elements)

go-binn_load_example :
    go_by clock (test (disk (1 ∷ 2 ∷ [])) (λ size. true) (λ bytes. counted 1)) 5 nothing_held
    ≡ scored
        (HashObject.hash_object object hash_initial_value)
        (timed_by clock 5)
        (record nothing_held { file_data = 1 ∷ 2 ∷ [] })
unfolding value
go-binn_load_example =
    go-binn_load clock (disk (1 ∷ 2 ∷ [])) (λ size. true) (λ bytes. counted 1) 5 (1 ∷ 2 ∷ [])
      (counted 1) object object nothing_held few (on_disk format_binn (1 ∷ 2 ∷ []) 5 none) refl refl
      tt refl refl
