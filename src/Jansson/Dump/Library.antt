-- ===== src/Jansson/Dump/Library.antt =====
-- How Jansson counts references: which values a caller owns before and after its functions.
use schemaless_benchmarks.Base.{
  ℕ, ◌≡◌, Bool, false, ◌⊎◌, Option, none, some, List, ◌∷◌, if◌then◌else◌, ℤ,
}
use schemaless_benchmarks.Object.{
  Object, Elements, Entries, nil, bool, double, int, str, array, map, no_elements, element,
  no_entries, entry,
}
use schemaless_benchmarks.Object.Append.{
  append_elements-none, append_entries-none, append_elements_assoc, append_entries_assoc, IsFresh,
  IsFresh-append, c_str-IsCharacter,
}
use schemaless_benchmarks.Object.Append as Behind
use schemaless_benchmarks.Jansson.Dump.{Jansson}

-- Which values the caller owns, the last one first, with the object that each stands for.
abbrev pub Owned : Type 0 → Type 0
Owned V = List (V × Object)

-- A value was made and is owned beside the others; or none was, and only the others are.
abbrev pub Leaves :
    {V W : Type 0} → (W → Owned V → Type 0) → Owned V → Object → Option V × W → Type 0
Leaves Owns others o (none, w) = Owns w others
Leaves Owns others o (some v, w) = Owns w ((v, o) ∷ others)

-- An addition takes the child over: the container has it, if the addition succeeded.
abbrev pub Takes :
    {V W : Type 0} → (W → Owned V → Type 0) → Owned V → V → Object → Object → Bool × W → Type 0
Takes Owns others parent before after (ok, w) =
    Owns w ((parent, if ok then after else before) ∷ others)

-- How Jansson counts references. Each function may fail; a value is freed with those that it holds.
pub record Counts {V W : Type 0} (json : Jansson V W) : Type 1 where
  pub Owns : W → Owned V → Type 0
  pub printed : Object → List ℕ
  pub boolean_made :
      (x : Bool) (w : W) (others : Owned V)
      → Owns w others
      → Leaves Owns others (bool x) (json.boolean x w)
  pub null_made : (w : W) (others : Owned V) → Owns w others → Leaves Owns others nil (json.null w)
  pub integer_made :
      (x : ℤ) (w : W) (others : Owned V)
      → Owns w others
      → Leaves Owns others (int x) (json.integer x w)
  pub real_made :
      (x : ℕ) (w : W) (others : Owned V)
      → Owns w others
      → Leaves Owns others (double x) (json.real x w)
  pub string_made :
      (s : List ℕ) (w : W) (others : Owned V)
      → Owns w others
      → Leaves Owns others (str s) (json.stringn s w)
  pub array_made :
      (w : W) (others : Owned V)
      → Owns w others
      → Leaves Owns others (array no_elements) (json.new_array w)
  pub object_made :
      (w : W) (others : Owned V)
      → Owns w others
      → Leaves Owns others (map no_entries) (json.new_object w)
  pub appended :
      (parent child : V) (x : Object) (xs : Elements) (w : W) (others : Owned V)
      → Owns w ((child, x) ∷ (parent, array xs) ∷ others)
      → Takes Owns others parent
          (array xs)
          (array (Behind.append_elements xs (element x no_elements)))
          (json.array_append_new (some parent) child w)
  pub set_behind :
      (parent child : V) (k : List ℕ) (x : Object) (es : Entries) (w : W) (others : Owned V)
      → IsFresh k es
      → Owns w ((child, x) ∷ (parent, map es) ∷ others)
      → Takes Owns others parent
          (map es)
          (map (Behind.append_entries es (entry k x no_entries)))
          (json.object_set_new (some parent) k child w)
  pub append_null :
      (child : V) (x : Object) (w : W) (others : Owned V)
      → Owns w ((child, x) ∷ others)
      → ((json.array_append_new none child w).0 ≡ false)
        × Owns (json.array_append_new none child w).1 others
  pub set_null :
      (child : V) (k : List ℕ) (x : Object) (w : W) (others : Owned V)
      → Owns w ((child, x) ∷ others)
      → ((json.object_set_new none k child w).0 ≡ false)
        × Owns (json.object_set_new none k child w).1 others
  pub released :
      (v : V) (o : Object) (w : W) (others : Owned V)
      → Owns w ((v, o) ∷ others)
      → Owns (json.decref (some v) w) others
  pub null_released : (w : W) (others : Owned V) → Owns w others → Owns (json.decref none w) others
  pub dumped :
      (v : V) (o : Object) (w : W) (others : Owned V)
      → Owns w ((v, o) ∷ others)
      → ((json.dumps v w).0 ≡ none)
        ⊎ (((json.dumps v w).0 ≡ some (printed o))
            × Owns (json.free (json.dumps v w).1) ((v, o) ∷ others))
