-- ===== src/Json/Builder.antt =====
-- src/udp-json/json-builder.c: `create_value`, which builds a value of json-builder. `V` are the pointers to its
-- values, and `W` is the state of the library and of the memory.
pub mod Laws
pub mod Generous
mod Tests
use schemaless_benchmarks.Benchmark.Root.{Root, create_root, destroy_root}
use schemaless_benchmarks.Base.{
  ℕ, ◌-◌, ◌^◌, Bool, true, false, Option, none, some, List, leb, take, if◌then◌else◌, ℤ, pos,
}
use schemaless_benchmarks.Hash.{hash_str}
use schemaless_benchmarks.Object.{
  Object, Elements, Entries, nil, bool, double, int, uint, str, array, map, no_elements, element,
  no_entries, entry, count_elements, count_entries,
}

-- A function that returns a pointer, which may be null.
abbrev pub Making : Type 0 → Type 0 → Type 0
Making V W = W → Option V × W

-- The functions of json-builder that are called, and `malloc`.
pub record Builder (V W : Type 0) : Type 0 where
  pub boolean_new : Bool → Making V W
  pub null_new : Making V W
  pub integer_new : ℤ → Making V W
  pub double_new : ℕ → Making V W
  pub string_new_length : List ℕ → Making V W
  pub array_new : ℕ → Making V W
  pub object_new : ℕ → Making V W
  pub array_push : V → V → W → Bool × W
  pub object_push_length : V → List ℕ → V → W → Bool × W
  pub builder_free : V → W → W
  pub measure : V → W → ℕ
  pub serialize : V → W → List ℕ
  pub malloc : ℕ → W → Bool × W
  pub free : W → W

module _ {V W : Type 0} (json : Builder V W) where
  -- `json_builder_free(parent); return NULL;`
  abbrev pub give_up : V → Making V W
  give_up parent w = (none, json.builder_free parent w)

  -- `return NULL` where a container cannot be made.
  abbrev pub fill : Option V × W → (V → Making V W) → Option V × W
  fill (none, w) k = (none, w)
  fill (some parent, w) k = k parent w

  -- A child that is null, or that cannot be pushed, gives up the parent.
  abbrev pub push : V → Option V × W → (V → W → Bool × W) → Making V W → Option V × W
  push parent (none, w) pushed k = give_up parent w
  push parent (some child, w) pushed k =
      let (ok, w') = pushed child w in if ok then k w' else give_up parent w'

  unfoldable mutual
    pub create_value : Object → Making V W
    create_value nil w = json.null_new w
    create_value (bool b) w = json.boolean_new b w
    create_value (int i) w = json.integer_new i w
    create_value (double d) w = json.double_new d w
    create_value (uint u) w = if leb u (2 ^ 63 - 1) then json.integer_new (pos u) w else (none, w)
    create_value (str s) w = json.string_new_length s w
    create_value (array xs) w =
        fill (json.array_new (count_elements xs) w) (λ parent v. push_elements parent xs v)
    create_value (map es) w =
        fill (json.object_new (count_entries es) w) (λ parent v. push_entries parent es v)

    pub push_elements : V → Elements → Making V W
    push_elements parent no_elements w = (some parent, w)
    push_elements parent (element x xs) w =
        push parent (create_value x w) (json.array_push parent) (λ v. push_elements parent xs v)

    pub push_entries : V → Entries → Making V W
    push_entries parent no_entries w = (some parent, w)
    push_entries parent (entry k x es) w =
        push parent (create_value x w) (json.object_push_length parent k)
          (λ v. push_entries parent es v)

  -- What `run_test` does with the value: it is freed on every path. What `json_serialize_ex` writes into the block is
  -- hashed up to `len`.
  unfoldable pub hash_text : Option V × W → ℕ → Bool × ℕ × W
  hash_text (none, w) hash = (false, hash, w)
  hash_text (some value, w) hash =
      let len = json.measure value w in
      let (ok, w') = json.malloc len w in
      if ok
      then (
        true,
        hash_str hash (take len (json.serialize value w')),
        json.builder_free value (json.free w'),
      )
      else (false, hash, json.builder_free value w')

  unfoldable pub run_test : Object → ℕ → W → Bool × ℕ × W
  run_test root_object hash w = hash_text (create_value root_object w) hash

-- The other functions of the test; `create` is the object that `benchmark_object_create` gives for a size.
unfoldable pub setup_test : (ℕ → Object) → ℕ → Root → Bool × Root
setup_test create object_size w = create_root (create object_size) w

unfoldable pub teardown_test : Root → Root
teardown_test w = destroy_root w
