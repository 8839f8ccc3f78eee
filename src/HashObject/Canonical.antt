-- ===== src/HashObject/Canonical.antt =====
-- The canonical object is its own.
use schemaless_benchmarks.Base.{◌≡◌, refl, ap}
use schemaless_benchmarks.Object.{
  Object, Elements, Entries, nil, bool, double, int, uint, str, array, map, no_elements, element,
  no_entries, entry,
}
use schemaless_benchmarks.HashObject.Laws.{canonical, canonical_elements, canonical_entries}

mutual
  unfolding canonical

  pub canonical-canonical : (o : Object) → canonical (canonical o) ≡ canonical o
  canonical-canonical nil = refl
  canonical-canonical (bool b) = refl
  canonical-canonical (double d) = refl
  canonical-canonical (int i) = refl
  canonical-canonical (uint u) = refl
  canonical-canonical (str s) = refl
  canonical-canonical (array xs) = ap array (elements-canonical xs)
  canonical-canonical (map es) = ap map (entries-canonical es)

  elements-canonical :
      (xs : Elements) → canonical_elements (canonical_elements xs) ≡ canonical_elements xs
  elements-canonical no_elements = refl
  elements-canonical (element x xs) = rw (canonical-canonical x, elements-canonical xs) refl

  entries-canonical :
      (es : Entries) → canonical_entries (canonical_entries es) ≡ canonical_entries es
  entries-canonical no_entries = refl
  entries-canonical (entry k x es) = rw (canonical-canonical x, entries-canonical es) refl
