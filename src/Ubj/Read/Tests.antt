-- ===== src/Ubj/Read/Tests.antt =====
-- An array of integers of one type, and one of mixed values.
use schemaless_benchmarks.Base.{◌≡◌, refl, true, some, [], ◌∷◌, pos}
use schemaless_benchmarks.HashObject
use schemaless_benchmarks.HashObject.Laws.{canonical}
use schemaless_benchmarks.Object.{Object, no_elements, element}
use schemaless_benchmarks.Ubj.Read.{
  int8, Value, mixed, nulltype, integer, array, no_values, value, run_test,
}
use schemaless_benchmarks.Ubj.Read.Laws.{
  Stands, of_mixed, of_nulltype, of_integer, of_array, of_no_values, of_value, run_test-ubj_read,
}

abbrev bytes : Value
bytes = array (value (integer int8 (pos 7)) no_values)

abbrev read : Value
read = array (value (mixed nulltype) (value (mixed bytes) no_values))

abbrev seven : Object → Object
seven x =
    Object.array (element Object.nil (element (Object.array (element x no_elements)) no_elements))

standing_bytes : Stands bytes (Object.array (element (Object.int (pos 7)) no_elements))
standing_bytes = of_array _ _ (of_value _ _ _ _ (of_integer int8 (pos 7)) of_no_values)

standing_read : Stands (mixed read) (seven (Object.int (pos 7)))
standing_read = of_mixed _ _ tt (
    of_array _ _ (
      of_value _ _ _ _ (of_mixed _ _ tt of_nulltype)
        (of_value _ _ _ _ (of_mixed _ _ tt standing_bytes) of_no_values)))

run_test-ubj_read_example :
    run_test (λ size. true) (λ bytes size. read) (1 ∷ 2 ∷ []) 15373
    ≡ some (true, HashObject.hash_object (seven (Object.uint 7)) 15373)
unfolding canonical
run_test-ubj_read_example =
    run_test-ubj_read (λ size. true) (λ bytes size. read) (1 ∷ 2 ∷ []) read
      (seven (Object.int (pos 7))) (seven (Object.uint 7)) 15373 refl refl standing_read refl
