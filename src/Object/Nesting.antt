-- ===== src/Object/Nesting.antt =====
-- How deep containers stand in an object.
use Prim.Native.Nat.{max}
use schemaless_benchmarks.Base.{ℕ, suc}
use schemaless_benchmarks.Object.{
  Object, Elements, Entries, array, map, no_elements, element, no_entries, entry,
}

-- The number of containers around the deepest one, itself included.
unfoldable mutual
  pub nesting : Object → ℕ
  nesting (array xs) = suc (nesting_elements xs)
  nesting (map es) = suc (nesting_entries es)
  nesting _ = 0

  pub nesting_elements : Elements → ℕ
  nesting_elements no_elements = 0
  nesting_elements (element x xs) = max (nesting x) (nesting_elements xs)

  pub nesting_entries : Entries → ℕ
  nesting_entries no_entries = 0
  nesting_entries (entry k x es) = max (nesting x) (nesting_entries es)
