-- ===== src/Binn/Write/Library.antt =====
-- How binn keeps the children that it is given.
use schemaless_benchmarks.Base.{ℕ, List}
use schemaless_benchmarks.Object.{
  Object, Elements, Entries, nil, bool, double, int, uint, str, array, map, no_elements, element,
  no_entries, entry,
}
use schemaless_benchmarks.Generator.Init.Generated.{IsKey}
use schemaless_benchmarks.Object.Valid.{IsValid}
use schemaless_benchmarks.Object.Append.{append_elements, append_entries, IsFresh}
use schemaless_benchmarks.Writer.Yields.{Yields}
use schemaless_benchmarks.Binn.Write.{
  Scalar, of_null, of_bool, of_double, of_int64, of_uint64, of_str, Binn,
}

-- The object of a scalar.
abbrev pub scalar_object : Scalar → Object
scalar_object of_null = nil
scalar_object (of_bool x) = bool x
scalar_object (of_double x) = double x
scalar_object (of_int64 x) = int x
scalar_object (of_uint64 x) = uint x
scalar_object (of_str x) = str x

-- How the library keeps what it is given: which children a list or an object has. A call with a value that the
-- format has puts it behind the others; an object takes a key like those of the generator, 2 to 10 lowercase letters,
-- that it does not have yet.
pub record Keeps {B : Type 0} (binn : Binn B) : Type 1 where
  pub HoldsList : B → Elements → Type 0
  pub HoldsObject : B → Entries → Type 0
  pub list_starts : HoldsList binn.create_list no_elements
  pub object_starts : HoldsObject binn.create_object no_entries
  pub list_added :
      (s : Scalar) (b : B) (xs : Elements)
      → IsValid (scalar_object s)
      → HoldsList b xs
      → Yields
          (binn.list_add s)
          b
          (λ b'. HoldsList b' (append_elements xs (element (scalar_object s) no_elements)))
  pub list_added_list :
      (child b : B) (ys xs : Elements)
      → HoldsList child ys
      → HoldsList b xs
      → Yields
          (binn.list_add_object child)
          b
          (λ b'. HoldsList b' (append_elements xs (element (array ys) no_elements)))
  pub list_added_object :
      (child b : B) (ys : Entries) (xs : Elements)
      → HoldsObject child ys
      → HoldsList b xs
      → Yields
          (binn.list_add_object child)
          b
          (λ b'. HoldsList b' (append_elements xs (element (map ys) no_elements)))
  pub object_set_value :
      (k : List ℕ) (s : Scalar) (b : B) (es : Entries)
      → IsKey k
      → IsFresh k es
      → IsValid (scalar_object s)
      → HoldsObject b es
      → Yields
          (binn.object_set k s)
          b
          (λ b'. HoldsObject b' (append_entries es (entry k (scalar_object s) no_entries)))
  pub object_set_list :
      (k : List ℕ) (child b : B) (ys : Elements) (es : Entries)
      → IsKey k
      → IsFresh k es
      → HoldsList child ys
      → HoldsObject b es
      → Yields
          (binn.object_set_object k child)
          b
          (λ b'. HoldsObject b' (append_entries es (entry k (array ys) no_entries)))
  pub object_set_map :
      (k : List ℕ) (child b : B) (ys es : Entries)
      → IsKey k
      → IsFresh k es
      → HoldsObject child ys
      → HoldsObject b es
      → Yields
          (binn.object_set_object k child)
          b
          (λ b'. HoldsObject b' (append_entries es (entry k (map ys) no_entries)))

-- What the root holds; an object that is no array and no map is held by none.
abbrev pub Holds : {B : Type 0} {binn : Binn B} → Keeps binn → B → Object → Type 0
Holds keeps b (array xs) = keeps.HoldsList b xs
Holds keeps b (map es) = keeps.HoldsObject b es
Holds keeps b _ = ⊥

-- An array or a map.
abbrev pub IsContainer : Object → Type 0
IsContainer (array xs) = Unit
IsContainer (map es) = Unit
IsContainer _ = ⊥
