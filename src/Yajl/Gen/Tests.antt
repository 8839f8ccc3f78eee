-- ===== src/Yajl/Gen/Tests.antt =====
-- Writing a small object.
use schemaless_benchmarks.Base.{
  ℕ, Bool, true, false, not, ◌&&◌, if◌then◌else◌, ◌≡◌, refl, List, [], ◌∷◌, ◌++◌,
}
use schemaless_benchmarks.Hash.{hash_initial_value, hash_str}
use schemaless_benchmarks.Object.{
  Object, nil, bool, array, map, no_elements, element, no_entries, entry,
}
use schemaless_benchmarks.Writer.{Writing, events, encode_all, perform_all}
use schemaless_benchmarks.Writer.Laws.{Grows, trace}
use schemaless_benchmarks.Yajl.Gen.{
  Call, test, encode, gen_null, gen_bool, gen_double, gen_integer, gen_string, array_open,
  array_close, map_open, map_close,
}
use schemaless_benchmarks.Yajl.Gen.Laws.{calls}
use schemaless_benchmarks.Yajl.Gen.Timed.{go-yajl_gen}
use schemaless_benchmarks.Benchmark.Go.{scored}
use schemaless_benchmarks.Benchmark.Load.Laws.{go_by, timed_by}
use schemaless_benchmarks.Benchmark.Load.Samples.{clock}
use schemaless_benchmarks.Benchmark.Root.{Root}

abbrev object : Object
object = map (entry (b'k' ∷ []) (array (element nil (element (bool true) no_elements))) no_entries)

-- What is written, and whether a comma comes before the next value.
record Gen : Type 0 where
  written : List ℕ
  comma : Bool

-- A library that sets commas between values, refuses doubles, and writes a few bytes for each call.
abbrev value_bytes : Call → List ℕ
value_bytes gen_null = b'n' ∷ []
value_bytes (gen_bool x) = (if x then b't' else b'f') ∷ []
value_bytes (gen_double x) = b'd' ∷ []
value_bytes (gen_integer x) = b'i' ∷ []
value_bytes (gen_string s) = b'"' ∷ (s ++ b'"' ∷ [])
value_bytes array_open = b'[' ∷ []
value_bytes array_close = b']' ∷ []
value_bytes map_open = b'{' ∷ []
value_bytes map_close = b'}' ∷ []

abbrev closes : Call → Bool
closes array_close = true
closes map_close = true
closes _ = false

abbrev opens : Call → Bool
opens array_open = true
opens map_open = true
opens _ = false

abbrev added : Gen → Call → List ℕ
added w c = (if w.comma && not (closes c) then b',' ∷ [] else []) ++ value_bytes c

abbrev generate : Call → Writing Gen
generate (gen_double x) w = (false, w)
generate c w = (true, record { written = w.written ++ added w c; comma = not (opens c) })

generate-Grows : Grows generate (λ w. w.written) added
generate-Grows gen_null w ok = refl
generate-Grows (gen_bool x) w ok = refl
generate-Grows (gen_double x) w ok = absurd cc
generate-Grows (gen_integer x) w ok = refl
generate-Grows (gen_string s) w ok = refl
generate-Grows array_open w ok = refl
generate-Grows array_close w ok = refl
generate-Grows map_open w ok = refl
generate-Grows map_close w ok = refl

abbrev empty : Gen
empty = record { written = []; comma = false }

abbrev no_root : Root
no_root = record { root_object = nil; objects = 0 }

accepted : (perform_all generate (calls object) empty).0 ≡ true
unfolding perform_all encode_all events encode
accepted = refl

go-yajl_gen_example :
    go_by clock (test (λ size. object) generate (λ w. w.written) empty) 3 no_root
    ≡ scored
        (hash_str hash_initial_value ([] ++ trace generate added (calls object) empty))
        (timed_by clock 3)
        (record { root_object = object; objects = 0 })
go-yajl_gen_example =
    go-yajl_gen clock (λ size. object) generate (λ w. w.written) added empty 3 no_root
      generate-Grows accepted
