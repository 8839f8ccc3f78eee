-- ===== src/Object/Fits.antt =====
-- What the sizes and numbers of a binary format can hold.
use schemaless_benchmarks.Base.{ℕ, ◌^◌, ◌<◌, length}
use schemaless_benchmarks.Object.{
  Object, Elements, Entries, nil, bool, double, int, uint, str, array, map, no_elements, element,
  no_entries, entry, count_elements, count_entries,
}
use schemaless_benchmarks.Object.Valid.{IsInt64}

-- Numbers have 64 bits, counts and the lengths of strings 32, and keys are shorter than `longest` bytes.
module _ (longest : ℕ) where
  unfoldable mutual
    pub Fits : Object → Type 0
    Fits nil = Unit
    Fits (bool x) = Unit
    Fits (double x) = Unit
    Fits (int x) = IsInt64 x
    Fits (uint x) = x < 2 ^ 64
    Fits (str s) = length s < 2 ^ 32
    Fits (array xs) = (count_elements xs < 2 ^ 32) × FitsElements xs
    Fits (map es) = (count_entries es < 2 ^ 32) × FitsEntries es

    pub FitsElements : Elements → Type 0
    FitsElements no_elements = Unit
    FitsElements (element x xs) = Fits x × FitsElements xs

    pub FitsEntries : Entries → Type 0
    FitsEntries no_entries = Unit
    FitsEntries (entry k x es) = (length k < longest) × Fits x × FitsEntries es
