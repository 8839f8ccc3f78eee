-- ===== src/Binn/Samples.antt =====
-- A library whose `binn`s are arrays and maps.
use schemaless_benchmarks.Base.{ℕ, ◌≡◌, refl, true, false, List, [], ◌∷◌}
use schemaless_benchmarks.Object.{Object, array, map, no_elements, element, no_entries, entry}
use schemaless_benchmarks.Object.Append.{append_elements, append_entries}
use schemaless_benchmarks.Writer.{Writing}
use schemaless_benchmarks.Binn.Write.{Binn}
use schemaless_benchmarks.Binn.Write.Library.{scalar_object, Keeps}

abbrev add : Object → Writing Object
add x (array xs) = (true, array (append_elements xs (element x no_elements)))
add x b = (false, b)

abbrev set : List ℕ → Object → Writing Object
set k x (map es) = (true, map (append_entries es (entry k x no_entries)))
set k x b = (false, b)

abbrev pub toy : Binn Object
toy = record {
  create_list = array no_elements;
  create_object = map no_entries;
  list_add = λ s. add (scalar_object s);
  list_add_object = add;
  object_set = λ k s. set k (scalar_object s);
  object_set_object = set;
  bytes = λ b. 1 ∷ 2 ∷ [];
}

pub toy_keeps : Keeps toy
toy_keeps = record {
  HoldsList = λ b xs. b ≡ array xs;
  HoldsObject = λ b es. b ≡ map es;
  list_starts = refl;
  object_starts = refl;
  list_added = λ s b xs v h. (_, rw h refl, refl);
  list_added_list = λ child b ys xs held h. (_, rw (h, held) refl, refl);
  list_added_object = λ child b ys xs held h. (_, rw (h, held) refl, refl);
  object_set_value = λ k s b es named f v h. (_, rw h refl, refl);
  object_set_list = λ k child b ys es named f held h. (_, rw (h, held) refl, refl);
  object_set_map = λ k child b ys es named f held h. (_, rw (h, held) refl, refl);
}
