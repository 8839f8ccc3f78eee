-- ===== src/Json/Builder/Tests.antt =====
-- A library whose values are numbers, and whose state counts the calls.
use schemaless_benchmarks.Base.{ℕ, ◌+◌, ◌^◌, ◌≡◌, refl, arith, true, false, some, [], ◌∷◌}
use schemaless_benchmarks.Hash.{hash_str}
use schemaless_benchmarks.Object.{
  Object, nil, uint, array, map, no_elements, element, no_entries, entry,
}
use schemaless_benchmarks.Json.Builder.{Builder, create_value, run_test}
use schemaless_benchmarks.Json.Builder.Laws.{
  TooLarge, here, in_array, in_map, later_element, this_element, this_entry, IsSmall,
  run_test-TooLarge,
}
use schemaless_benchmarks.Json.Builder.Generous.{IsGenerous, run_test-IsSmall}

abbrev json : Builder ℕ ℕ
json = record {
  boolean_new = λ b w. (some w, w + 1);
  null_new = λ w. (some w, w + 1);
  integer_new = λ i w. (some w, w + 1);
  double_new = λ d w. (some w, w + 1);
  string_new_length = λ s w. (some w, w + 1);
  array_new = λ n w. (some w, w + 1);
  object_new = λ n w. (some w, w + 1);
  array_push = λ parent child w. (true, w + 1);
  object_push_length = λ parent k child w. (true, w + 1);
  builder_free = λ v w. w;
  measure = λ v w. 2;
  serialize = λ v w. v ∷ w ∷ [];
  malloc = λ size w. (true, w);
  free = λ w. w;
}

abbrev holding : ℕ → Object
holding u = map (entry (b'k' ∷ []) (array (element nil (element (uint u) no_elements))) no_entries)

large : TooLarge (holding (2 ^ 63))
large = in_map _ (
    this_entry _ _ _
      (in_array _ (later_element _ _ (this_element _ _ (here (2 ^ 63) (omega arith))))))

run_test-TooLarge_example :
    ((run_test json (holding (2 ^ 63)) 15373 0).0 ≡ false)
    × ((run_test json (holding (2 ^ 63)) 15373 0).1 ≡ 15373)
run_test-TooLarge_example = run_test-TooLarge json (holding (2 ^ 63)) 15373 0 large

generous : IsGenerous json
generous = record {
  booleans = λ b w. (w, w + 1, refl);
  nulls = λ w. (w, w + 1, refl);
  integers = λ i w. (w, w + 1, refl);
  doubles = λ d w. (w, w + 1, refl);
  strings = λ s w. (w, w + 1, refl);
  arrays = λ n w. (w, w + 1, refl);
  objects = λ n w. (w, w + 1, refl);
  array_pushes = λ parent child w. refl;
  object_pushes = λ parent k child w. refl;
  blocks = λ size w. refl;
  measured = λ value w. refl;
}

run_test-IsSmall_example :
    (value : ℕ) × (w' : ℕ) × (create_value json (holding 7) 0 ≡ (some value, w'))
    × ((run_test json (holding 7) 15373 0).0 ≡ true)
    × ((run_test json (holding 7) 15373 0).1 ≡ hash_str 15373 (value ∷ w' ∷ []))
unfolding IsSmall
run_test-IsSmall_example =
    run_test-IsSmall json (holding 7) 15373 0 generous ((tt, (omega arith, tt)), tt)
