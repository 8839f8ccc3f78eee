-- ===== src/Msgpack/Pack/Tests.antt =====
-- Writing a small object.
use schemaless_benchmarks.Base.{ℕ, true, ◌≡◌, refl, List, [], ◌∷◌, ◌++◌}
use schemaless_benchmarks.Hash.{hash_initial_value, hash_str}
use schemaless_benchmarks.Object.{
  Object, nil, bool, array, map, no_elements, element, no_entries, entry,
}
use schemaless_benchmarks.Writer.{Writing, events, encode_all, bytes_all}
use schemaless_benchmarks.Msgpack.Pack.{Call, test, encode}
use schemaless_benchmarks.Msgpack.Pack.Timed.{go-msgpack_pack}
use schemaless_benchmarks.Benchmark.Go.{scored}
use schemaless_benchmarks.Benchmark.Load.Laws.{go_by, timed_by}
use schemaless_benchmarks.Benchmark.Load.Samples.{clock}
use schemaless_benchmarks.Benchmark.Root.{Root}

abbrev object : Object
object = map (entry (b'k' ∷ []) (array (element nil (element (bool true) no_elements))) no_entries)

-- Each call adds a byte.
abbrev add_byte : Call → Writing (List ℕ)
add_byte = λ c w. (true, w ++ 1 ∷ [])

abbrev one_byte : Call → List ℕ
one_byte c = 1 ∷ []

abbrev no_root : Root
no_root = record { root_object = nil; objects = 0 }

go-msgpack_pack_example :
    go_by clock (test (λ size. object) add_byte (λ w. w) (7 ∷ [])) 3 no_root
    ≡ scored
        (hash_str hash_initial_value
          ((7 ∷ []) ++ bytes_all one_byte (encode_all encode (events object))))
        (timed_by clock 3)
        (record { root_object = object; objects = 0 })
go-msgpack_pack_example =
    go-msgpack_pack clock (λ size. object) add_byte (λ w. w) one_byte (7 ∷ []) 3 no_root
      (λ c w. (refl, refl))
