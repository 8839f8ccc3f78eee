-- ===== src/Generator/Init/Generated.antt =====
-- What an object of the generator looks like, and how many bytes its parts take in the copy.
use schemaless_benchmarks.Base.{ℕ, ◌+◌, ◌*◌, ◌^◌, ◌≤◌, ◌<◌, ◌≢◌, List, [], ◌∷◌, All, length}
use schemaless_benchmarks.Object.{
  Object, Elements, Entries, nil, bool, double, int, uint, str, array, map, no_elements, element,
  no_entries, entry, count_elements, count_entries,
}
use schemaless_benchmarks.Object.Valid.{IsInt64, IsValid, AreValid, AreValidEntries}
use schemaless_benchmarks.Generator.Text.Utf8.{IsUtf8, IsUtf8-IsCharacter}
use schemaless_benchmarks.Generator.Text.Keys.{IsLowercase, IsLowercase-IsCharacter}
use schemaless_benchmarks.Generator.Init.{object_align, sizeof_object}

-- 2 to 10 lowercase letters.
abbrev pub IsKey : List ℕ → Type 0
IsKey k = All IsLowercase k × (2 ≤ length k) × (length k ≤ 10)

-- The counts are those of the sizes up to 5. `used` are the keys that stand before in the same map.
unfoldable mutual
  pub IsGenerated : Object → Type 0
  IsGenerated nil = Unit
  IsGenerated (bool b) = Unit
  IsGenerated (double d) = Unit
  IsGenerated (int i) = IsInt64 i
  IsGenerated (uint u) = u < 2 ^ 63
  IsGenerated (str s) = IsUtf8 s × (length s < 1008)
  IsGenerated (array xs) = (count_elements xs < 192) × AreGenerated xs
  IsGenerated (map es) = (count_entries es < 96) × AreGeneratedEntries [] es

  pub AreGenerated : Elements → Type 0
  AreGenerated no_elements = Unit
  AreGenerated (element x xs) = IsGenerated x × AreGenerated xs

  pub AreGeneratedEntries : List (List ℕ) → Entries → Type 0
  AreGeneratedEntries used no_entries = Unit
  AreGeneratedEntries used (entry k x es) =
      IsKey k × All (λ j. k ≢ j) used × IsGenerated x × AreGeneratedEntries (k ∷ used) es

-- The bytes that the parts of an object take beside its own `object_t`, each block aligned.
unfoldable mutual
  pub footprint : Object → ℕ
  footprint (str s) = object_align (length s + 1)
  footprint (array xs) = object_align (count_elements xs * sizeof_object) + footprint_elements xs
  footprint (map es) = object_align (2 * count_entries es * sizeof_object) + footprint_entries es
  footprint _ = 0

  pub footprint_elements : Elements → ℕ
  footprint_elements no_elements = 0
  footprint_elements (element x xs) = footprint x + footprint_elements xs

  pub footprint_entries : Entries → ℕ
  footprint_entries no_entries = 0
  footprint_entries (entry k x es) =
      object_align (length k + 1) + footprint x + footprint_entries es

mutual
  unfolding IsGenerated IsValid

  generated-IsValid : (o : Object) → IsGenerated o → IsValid o
  generated-IsValid nil g = tt
  generated-IsValid (bool b) g = tt
  generated-IsValid (double d) g = tt
  generated-IsValid (int i) g = g
  generated-IsValid (uint u) g = g
  generated-IsValid (str s) g = IsUtf8-IsCharacter g.0
  generated-IsValid (array xs) g = elements-AreValid xs g.1
  generated-IsValid (map es) g = entries-AreValid [] es g.1

  elements-AreValid : (xs : Elements) → AreGenerated xs → AreValid xs
  elements-AreValid no_elements g = tt
  elements-AreValid (element x xs) g = (generated-IsValid x g.0, elements-AreValid xs g.1)

  entries-AreValid :
      (used : List (List ℕ)) (es : Entries) → AreGeneratedEntries used es → AreValidEntries es
  entries-AreValid used no_entries g = tt
  entries-AreValid used (entry k x es) g =
      (IsLowercase-IsCharacter k g.0.0, generated-IsValid x g.2, entries-AreValid (k ∷ used) es g.3)

pub IsGenerated-IsValid : (o : Object) → IsGenerated o → IsValid o
IsGenerated-IsValid o g = generated-IsValid o g
