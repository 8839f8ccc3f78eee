-- ===== src/Generator/Teardown/Tests.antt =====
-- A list with a map, whose value is a string.
use schemaless_benchmarks.Base.{◌≡◌, refl, arith, true, some, [], ◌∷◌}
use schemaless_benchmarks.Generator.Teardown.{
  Stored, plain, text, array, map, no_children, child, Heap, object_teardown, blocks_of, IsLaidOut,
}
use schemaless_benchmarks.Generator.Teardown.Laws.{AreDistinct, without_all, object_teardown-frees}

abbrev stored : Stored
stored =
    array 5 2
      (child plain (child (map 4 1 (child (text 2) (child (text 3) no_children))) no_children))

abbrev all_live : Heap
all_live block = true

object_teardown-frees_example :
    object_teardown stored all_live ≡ some (without_all (2 ∷ 3 ∷ 4 ∷ 5 ∷ []) all_live)
unfolding blocks_of AreDistinct IsLaidOut
object_teardown-frees_example =
    object_teardown-frees stored all_live (refl, (tt, ((refl, (tt, (tt, tt))), tt)))
      (
        ((λ e. omega (arith, e)), ((λ e. omega (arith, e)), ((λ e. omega (arith, e)), tt))),
        (
          ((λ e. omega (arith, e)), ((λ e. omega (arith, e)), tt)),
          (((λ e. omega (arith, e)), tt), (tt, tt)),
        ),
      )
      (refl, (refl, (refl, (refl, tt))))
