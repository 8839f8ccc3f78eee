-- ===== src/Object/Valid.antt =====
-- What the formats of the benchmark can carry (README.md, "Test Data").
use schemaless_benchmarks.Base.{ℕ, ◌^◌, ◌≤◌, ◌<◌, All, ℤ, pos, negsuc}
use schemaless_benchmarks.Object.{
  Object, Elements, Entries, nil, bool, double, int, uint, str, array, map, no_elements, element,
  no_entries, entry,
}

-- A byte of a null-terminated string.
abbrev pub IsCharacter : ℕ → Type 0
IsCharacter b = (1 ≤ b) × (b < 256)

-- INT64_MIN to INT64_MAX
abbrev pub IsInt64 : ℤ → Type 0
IsInt64 (pos n) = n < 2 ^ 63
IsInt64 (negsuc n) = n < 2 ^ 63

-- Strings hold no null byte, so that `strlen` finds their length, and numbers are in the range
-- INT64_MIN to INT64_MAX.
unfoldable mutual
  pub IsValid : Object → Type 0
  IsValid nil = Unit
  IsValid (bool b) = Unit
  IsValid (double d) = Unit
  IsValid (int i) = IsInt64 i
  IsValid (uint u) = u < 2 ^ 63
  IsValid (str s) = All IsCharacter s
  IsValid (array xs) = AreValid xs
  IsValid (map es) = AreValidEntries es

  pub AreValid : Elements → Type 0
  AreValid no_elements = Unit
  AreValid (element x xs) = IsValid x × AreValid xs

  pub AreValidEntries : Entries → Type 0
  AreValidEntries no_entries = Unit
  AreValidEntries (entry k x es) = All IsCharacter k × IsValid x × AreValidEntries es
