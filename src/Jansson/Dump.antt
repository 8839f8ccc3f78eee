-- ===== src/Jansson/Dump.antt =====
-- src/jansson/jansson-dump.c: `convert`, which builds a value of Jansson. `V` are the pointers to its values, and `W`
-- is the state of the library with the memory.
pub mod Library
pub mod Laws
mod Tests
use schemaless_benchmarks.Benchmark.Root.{Root, create_root, destroy_root}
use schemaless_benchmarks.Base.{ℕ, Bool, true, false, Option, none, some, List, if◌then◌else◌, ℤ}
use schemaless_benchmarks.Hash.{hash_str}
use schemaless_benchmarks.Generator.Init.{to_signed}
use schemaless_benchmarks.Object.{
  Object, Elements, Entries, nil, bool, double, int, uint, str, array, map, no_elements, element,
  no_entries, entry,
}
use schemaless_benchmarks.Parser.{c_str}

-- A function that returns a pointer, which may be null.
abbrev pub Making : Type 0 → Type 0 → Type 0
Making V W = W → Option V × W

-- The functions `json_…` that are called. Those that append and set say whether they returned 0; they are given the
-- container without a check whether it is null. `dumps` prints with the flag JSON_COMPACT.
pub record Jansson (V W : Type 0) : Type 0 where
  pub boolean : Bool → Making V W
  pub null : Making V W
  pub integer : ℤ → Making V W
  pub real : ℕ → Making V W
  pub stringn : List ℕ → Making V W
  pub new_array : Making V W
  pub new_object : Making V W
  pub array_append_new : Option V → V → W → Bool × W
  pub object_set_new : Option V → List ℕ → V → W → Bool × W
  pub decref : Option V → W → W
  pub dumps : V → W → Option (List ℕ) × W
  pub free : W → W

module _ {V W : Type 0} (json : Jansson V W) where
  -- `if (!child || … != 0) { json_decref(parent); return NULL; }`
  abbrev pub put : Option V → Option V × W → (V → W → Bool × W) → Making V W → Option V × W
  put parent (none, w) add k = (none, json.decref parent w)
  put parent (some child, w) add k =
      let (ok, w') = add child w in if ok then k w' else (none, json.decref parent w')

  -- The loops give back the container, which is null if it could not be made.
  unfoldable mutual
    pub convert : Object → Making V W
    convert (bool x) w = json.boolean x w
    convert nil w = json.null w
    convert (int x) w = json.integer x w
    convert (double x) w = json.real x w
    convert (uint x) w = json.integer (to_signed x) w
    convert (str s) w = json.stringn s w
    convert (array xs) w = let (parent, w') = json.new_array w in append_elements parent xs w'
    convert (map es) w = let (parent, w') = json.new_object w in set_entries parent es w'

    pub append_elements : Option V → Elements → Making V W
    append_elements parent no_elements w = (parent, w)
    append_elements parent (element x xs) w =
        put parent (convert x w) (json.array_append_new parent) (λ v. append_elements parent xs v)

    pub set_entries : Option V → Entries → Making V W
    set_entries parent no_entries w = (parent, w)
    set_entries parent (entry k x es) w =
        put parent (convert x w) (json.object_set_new parent (c_str k))
          (λ v. set_entries parent es v)

  -- `hash_str(…, result, strlen(result)); free(result); json_decref(root); return true;`, where `none` stands for
  -- `strlen` of a null pointer.
  abbrev pub hash_text : V → Option (List ℕ) × W → ℕ → Option (Bool × ℕ × W)
  hash_text root (none, w) hash = none
  hash_text root (some result, w) hash =
      some (true, hash_str hash (c_str result), json.decref (some root) (json.free w))

  -- What `run_test` does with the root.
  abbrev pub hash_root : Option V × W → ℕ → Option (Bool × ℕ × W)
  hash_root (none, w) hash = some (false, hash, w)
  hash_root (some root, w) hash = hash_text root (json.dumps root w) hash

  unfoldable pub run_test : Object → ℕ → W → Option (Bool × ℕ × W)
  run_test root_object hash w = hash_root (convert root_object w) hash

-- The other functions of the test; `create` is the object that `benchmark_object_create` gives for a size.
unfoldable pub setup_test : (ℕ → Object) → ℕ → Root → Bool × Root
setup_test create object_size w = create_root (create object_size) w

unfoldable pub teardown_test : Root → Root
teardown_test w = destroy_root w
