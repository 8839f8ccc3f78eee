-- ===== src/Object/Samples.antt =====
-- An object with a map in an array.
use schemaless_benchmarks.Base.{arith, [], ◌∷◌, All}
use schemaless_benchmarks.Object.{
  Object, Elements, uint, str, array, map, no_elements, element, no_entries, entry,
}
use schemaless_benchmarks.Generator.Init.Generated.{IsGenerated}
use schemaless_benchmarks.Generator.Text.Utf8.{IsUtf8, done, ascii}
use schemaless_benchmarks.Generator.Text.Keys.{IsLowercase}

abbrev pub children : Elements
children =
    element (uint 7)
      (element (map (entry (b'a' ∷ b'b' ∷ []) (str (b'c' ∷ [])) no_entries)) no_elements)

abbrev pub sample : Object
sample = array children

pub sample-IsGenerated : IsGenerated sample
unfolding IsGenerated
sample-IsGenerated = (
  omega arith,
  (
    omega arith,
    ((omega arith, ((letters, omega arith, omega arith), tt, (letter, omega arith), tt)), tt),
  ),
)
  where
    letters : All IsLowercase (b'a' ∷ b'b' ∷ [])
    letters = ((omega arith, omega arith), ((omega arith, omega arith), tt))

    letter : IsUtf8 (b'c' ∷ [])
    letter = ascii (omega arith) (omega arith) done
