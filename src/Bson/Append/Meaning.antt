-- ===== src/Bson/Append/Meaning.antt =====
-- The documents of libbson-append.c, as libbson-iter.c understands them.
use schemaless_benchmarks.Base.{
  ℕ, suc, ◌≤◌, ◌≡◌, refl, ap, arith, Bool-cases, true, false, inl, inr, some, List, [], ◌∷◌, ℤ, pos,
  length,
}
use schemaless_benchmarks.Generator.Init.Numbers.{to_signed_small}
use schemaless_benchmarks.Generator.Init.Generated.{IsGenerated, IsGenerated-IsValid}
use schemaless_benchmarks.Object.{
  Object, Elements, Entries, no_elements, element, no_entries, entry,
}
use schemaless_benchmarks.Object.Valid.{IsValid, AreValid, AreValidEntries}
use schemaless_benchmarks.Object.Append.{c_str-IsCharacter}
use schemaless_benchmarks.HashObject.Laws.{canonical, canonical_elements, canonical_entries}
use schemaless_benchmarks.Parser.{
  Members, no_members, value, values, member_values, array_of, map_of,
}
use schemaless_benchmarks.Bson.Iter.{Leaf, leaf_value, key, elements_of, is_array, is_zero}
use schemaless_benchmarks.Bson.Iter.Laws.{root_value}
use schemaless_benchmarks.Bson.Append.{is_int32, shortest}
use schemaless_benchmarks.Bson.Append.Laws.{tree_of, members_of, indexed, root_members}

shortest_value : (i : ℤ) → leaf_value (shortest i) ≡ some (Object.int i)
shortest_value i = elim (Bool-cases (is_int32 i)) [
  | inl small ↦ rw small refl
  | inr large ↦ rw large refl
]

module _ (index_name : ℕ → List ℕ) where
  mutual
    unfolding tree_of value canonical IsValid

    tree-canonical :
        (x : Object) → IsValid x → value leaf_value key (tree_of index_name x) ≡ some (canonical x)
    tree-canonical Object.nil v = refl
    tree-canonical (Object.bool x) v = refl
    tree-canonical (Object.double x) v = refl
    tree-canonical (Object.str s) v = refl
    tree-canonical (Object.int x) v = shortest_value x
    tree-canonical (Object.uint x) v = rw (to_signed_small x v) (shortest_value (pos x))
    tree-canonical (Object.map es) v = ap map_of (members-canonical es v)
    tree-canonical (Object.array xs) v = ap array_of (indexed-canonical 0 xs v)

    members-canonical :
        (es : Entries)
        → AreValidEntries es
        → member_values leaf_value key (members_of index_name es) ≡ some (canonical_entries es)
    members-canonical no_entries v = refl
    members-canonical (entry k x es) v =
        rw (c_str-IsCharacter k v.0, tree-canonical x v.1, members-canonical es v.2) refl

    indexed-canonical :
        (i : ℕ) (xs : Elements)
        → AreValid xs
        → values leaf_value key (elements_of (indexed index_name i xs))
          ≡ some (canonical_elements xs)
    indexed-canonical i no_elements v = refl
    indexed-canonical i (element x xs) v =
        rw (tree-canonical x v.0, indexed-canonical (suc i) xs v.1) refl

-- An array that is not empty, or a map.
abbrev pub IsReadable : Object → Type 0
IsReadable (Object.array (element x xs)) = Unit
IsReadable (Object.map es) = Unit
IsReadable _ = ⊥

-- The key is not "0".
long-key : (k : List ℕ) → 2 ≤ length k → is_zero k ≡ false
long-key [] p = refl
long-key (c ∷ []) p = absurd (omega arith)
long-key (c ∷ d ∷ k) p = refl

-- An array that is not empty, or a map, that the generator can make is taken by the reader for what it is: its root
-- document stands for the object.
pub root-canonical :
    (index_name : ℕ → List ℕ) (o : Object)
    → index_name 0 ≡ b'0' ∷ []
    → IsGenerated o
    → IsReadable o
    → (ms : Members Leaf) × (root_members index_name o ≡ some ms)
      × (root_value ms ≡ some (canonical o))
unfolding IsGenerated canonical tree_of IsValid member_values
root-canonical index_name (Object.array (element x xs)) zeroth g r =
    let ms = indexed index_name 0 (element x xs) in
    let indices : is_array ms ≡ true = rw zeroth refl in
    let valid = IsGenerated-IsValid (Object.array (element x xs)) g in
    (
      ms,
      refl,
      rw (root_value, indices) (ap array_of (indexed-canonical index_name 0 (element x xs) valid)),
    )
root-canonical index_name (Object.map no_entries) zeroth g r = (no_members, refl, refl)
root-canonical index_name (Object.map (entry k x es)) zeroth g r =
    let ms = members_of index_name (entry k x es) in
    let valid = IsGenerated-IsValid (Object.map (entry k x es)) g in
    let plain = c_str-IsCharacter k valid.0 in
    let named : is_array ms ≡ false = rw plain (long-key k g.1.0.1) in
    (
      ms,
      refl,
      rw (root_value, named) (ap map_of (members-canonical index_name (entry k x es) valid)),
    )
root-canonical index_name (Object.array no_elements) zeroth g r = absurd r
root-canonical index_name Object.nil zeroth g r = absurd r
root-canonical index_name (Object.bool x) zeroth g r = absurd r
root-canonical index_name (Object.double x) zeroth g r = absurd r
root-canonical index_name (Object.int x) zeroth g r = absurd r
root-canonical index_name (Object.uint x) zeroth g r = absurd r
root-canonical index_name (Object.str x) zeroth g r = absurd r
