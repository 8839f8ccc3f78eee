-- ===== src/Generator/Tests.antt =====
-- The generator from small seeds.
use schemaless_benchmarks.Base.{ℕ, ◌≡◌, refl, arith, Bool, true, false, List, [], ◌∷◌, some}
use schemaless_benchmarks.Object.{Object, str, array, no_elements, element}
use schemaless_benchmarks.Random.{Random, random_seed, random_next, random_inverse, count_bits}
use schemaless_benchmarks.Random.Next.{IsState, random_seed-IsState}
use schemaless_benchmarks.Generator.Outcome.{Outcome, ok, fault, stuck, Ensures}
use schemaless_benchmarks.Generator.Text.{
  random_key, key_letters, random_string, string_bytes, string_round, escaped, non_ascii, any_ascii,
  letter, encode,
}
use schemaless_benchmarks.Generator.Text.Utf8.{IsUtf8, done, ascii}
use schemaless_benchmarks.Generator.Kind.{
  Draw, random_type, random_scalar, random_container, with_length, double_odds, double_length,
}
use schemaless_benchmarks.Generator.Kind.Range.{IsDraw, random_type-IsDraw}
use schemaless_benchmarks.Generator.Init.{
  Reals, object_init, object_align, create_source, init_kind, init_elements, init_entries,
  unused_key, random_uint, random_int, small_int, random_word, random_double,
}
use schemaless_benchmarks.Generator.Init.Generated.{IsGenerated}
use schemaless_benchmarks.Generator.Init.Total.{IsInit, object_init-IsInit}
use schemaless_benchmarks.Generator.Pool.{object_copy, object_create}
use schemaless_benchmarks.Generator.Pool.Create.{IsCreated, object_create-IsCreated}

abbrev start : Random
start = random_seed 123

abbrev whole : Reals
whole a b c d e f = a

abbrev text : List ℕ
text = b'h' ∷ b'i' ∷ []

abbrev object : Object
object = array (element (str text) no_elements)

start-IsState : IsState start
start-IsState = (random_seed-IsState 123).0

object-IsGenerated : IsGenerated object
unfolding IsGenerated
object-IsGenerated = (omega arith, ((letters, omega arith), tt))
  where
    letters : IsUtf8 text
    letters = ascii (omega arith) (omega arith) (ascii (omega arith) (omega arith) done)

random_type-IsDraw_example : (draw : Draw) × (random_type 3 2 start ≡ some draw) × IsDraw 3 2 draw
random_type-IsDraw_example = random_type-IsDraw 3 2 start start-IsState

object_init-IsInit_example : Ensures (IsInit 16) (object_init whole 100 32 3 0 16 start)
object_init-IsInit_example =
    object_init-IsInit whole 100 32 3 0 16 start (omega arith) (omega arith) (omega arith)
      start-IsState

object_create-IsCreated_example : Ensures (IsCreated 4096) (object_create whole 100 4096 123 1)
object_create-IsCreated_example = object_create-IsCreated whole 100 4096 123 1 (omega arith) refl

abbrev is_ok : {A : Type 0} → Outcome A → Bool
is_ok (ok a) = true
is_ok fault = false
is_ok stuck = false

-- The seed of the benchmarks finds its keys.
created : is_ok (object_create whole 100 4096 12345678 1) ≡ true
unfolding object_create object_init create_source init_kind init_elements init_entries unused_key
    random_key key_letters random_string string_bytes string_round escaped non_ascii any_ascii
    letter encode random_type random_scalar random_container with_length double_odds double_length
    random_next random_seed random_inverse count_bits random_uint random_int small_int random_word
    random_double object_copy object_align
created = refl
