-- ===== src/Bson/Append/Laws.antt =====
-- What libbson-append.c stores for an object, and how libbson-iter.c understands it.
use mathlib.Core.Option.{some-injective}
use schemaless_benchmarks.Base.{
  ℕ, suc, ◌≡◌, refl, ap, true, Option, none, some, List, [], ◌∷◌, u32, All,
}
use schemaless_benchmarks.Hash.{hash_str}
use schemaless_benchmarks.Generator.Init.{to_signed}
use schemaless_benchmarks.Object.{
  Object, Elements, Entries, no_elements, element, no_entries, entry,
}
use schemaless_benchmarks.Object.Valid.{IsCharacter, IsValid, AreValid, AreValidEntries}
use schemaless_benchmarks.Parser.{Tree, Members, leaf, list, object, no_members, member}
use schemaless_benchmarks.Writer.{Writing, done, ◌>>◌}
use schemaless_benchmarks.Writer.Yields.{Yields, then-Yields}
use schemaless_benchmarks.Bson.Iter.{Leaf, null, bool, double, utf8, elements_of}
use schemaless_benchmarks.Bson.Append.{
  Bson, shortest, append_value, append_document, append_array, append_root, run_test,
}

unfoldable pub append_members : Members Leaf → Members Leaf → Members Leaf
append_members no_members ns = ns
append_members (member k t ms) ns = member k t (append_members ms ns)

append_members-none : (ms : Members Leaf) → append_members ms no_members ≡ ms
unfolding append_members
append_members-none no_members = refl
append_members-none (member k t ms) = ap (λ ns. member k t ns) (append_members-none ms)

append_members_assoc :
    (ms ns rest : Members Leaf)
    → append_members (append_members ms ns) rest ≡ append_members ms (append_members ns rest)
unfolding append_members
append_members_assoc no_members ns rest = refl
append_members_assoc (member k t ms) ns rest =
    ap (λ xs. member k t xs) (append_members_assoc ms ns rest)

-- The elements of a document that holds an object, with the names of an array's indices.
module _ (index_name : ℕ → List ℕ) where
  unfoldable mutual
    pub tree_of : Object → Tree Leaf
    tree_of Object.nil = leaf null
    tree_of (Object.bool x) = leaf (bool x)
    tree_of (Object.double x) = leaf (double x)
    tree_of (Object.str s) = leaf (utf8 s)
    tree_of (Object.int x) = leaf (shortest x)
    tree_of (Object.uint x) = leaf (shortest (to_signed x))
    tree_of (Object.map es) = object (members_of es)
    tree_of (Object.array xs) = list (elements_of (indexed 0 xs))

    pub members_of : Entries → Members Leaf
    members_of no_entries = no_members
    members_of (entry k x es) = member k (tree_of x) (members_of es)

    pub indexed : ℕ → Elements → Members Leaf
    indexed i no_elements = no_members
    indexed i (element x xs) = member (index_name (u32 i)) (tree_of x) (indexed (suc i) xs)

-- How the library keeps what it is given: a document holds its elements in the order of the calls, and a child that
-- was begun and ended is one of them. Keys have no null bytes, as those that it gives the indices.
pub record Keeps {B : Type 0} (bson : Bson B) : Type 1 where
  pub Holds : B → Members Leaf → Type 0
  pub starts : Holds bson.initializer no_members
  pub named : (i : ℕ) → All IsCharacter (bson.index_name i)
  pub zeroth : bson.index_name 0 ≡ b'0' ∷ []
  pub appended :
      (k : List ℕ) (l : Leaf) (b : B) (ms : Members Leaf)
      → All IsCharacter k
      → Holds b ms
      → Holds (bson.append k l b) (append_members ms (member k (leaf l) no_members))
  pub document_begun :
      (k : List ℕ) (b : B) (ms : Members Leaf)
      → All IsCharacter k
      → Holds b ms
      → Holds (bson.document_begin k b).1 no_members
  pub document_ended :
      (k : List ℕ) (b child : B) (ms ns : Members Leaf)
      → All IsCharacter k
      → Holds b ms
      → Holds child ns
      → Holds
          (bson.document_end (bson.document_begin k b).0 child)
          (append_members ms (member k (object ns) no_members))
  pub array_begun :
      (k : List ℕ) (b : B) (ms : Members Leaf)
      → All IsCharacter k
      → Holds b ms
      → Holds (bson.array_begin k b).1 no_members
  pub array_ended :
      (k : List ℕ) (b child : B) (ms ns : Members Leaf)
      → All IsCharacter k
      → Holds b ms
      → Holds child ns
      → Holds
          (bson.array_end (bson.array_begin k b).0 child)
          (append_members ms (member k (list (elements_of ns)) no_members))

-- The function succeeds, and the document holds these elements behind those before.
abbrev Adds : {B : Type 0} (bson : Bson B) → Keeps bson → Writing B → Members Leaf → Type 0
Adds bson keeps m ns =
    (b : _) (ms : Members Leaf)
    → keeps.Holds b ms
    → Yields m b (λ b'. keeps.Holds b' (append_members ms ns))

module _ {B : Type 0} (bson : Bson B) (keeps : Keeps bson) where
  then-Adds :
      (m rest : Writing B) (k : List ℕ) (t : Tree Leaf) (ns : Members Leaf)
      → Adds bson keeps m (member k t no_members)
      → Adds bson keeps rest ns
      → Adds bson keeps (m >> rest) (member k t ns)
  unfolding append_members
  then-Adds m rest k t ns first others b ms h =
      then-Yields m rest b (λ b'. keeps.Holds b' (append_members ms (member k t no_members)))
        (λ b'. keeps.Holds b' (append_members ms (member k t ns))) (first b ms h)
        (λ b' h'.
          let added = others b' (append_members ms (member k t no_members)) h' in
          rw (append_members_assoc ms (member k t no_members) ns) at added)

  done-Adds : Adds bson keeps done no_members
  done-Adds b ms h = (b, refl, rw (append_members-none ms) h)

  mutual
    unfolding append_value tree_of append_members IsValid

    value-Adds :
        (k : List ℕ) (x : Object)
        → All IsCharacter k
        → IsValid x
        → Adds bson keeps (append_value bson k x) (member k (tree_of bson.index_name x) no_members)
    value-Adds k Object.nil c v b ms h = (_, refl, keeps.appended k null b ms c h)
    value-Adds k (Object.bool x) c v b ms h = (_, refl, keeps.appended k (bool x) b ms c h)
    value-Adds k (Object.double x) c v b ms h = (_, refl, keeps.appended k (double x) b ms c h)
    value-Adds k (Object.str s) c v b ms h = (_, refl, keeps.appended k (utf8 s) b ms c h)
    value-Adds k (Object.int x) c v b ms h = (_, refl, keeps.appended k (shortest x) b ms c h)
    value-Adds k (Object.uint x) c v b ms h =
        (_, refl, keeps.appended k (shortest (to_signed x)) b ms c h)
    value-Adds k (Object.map es) c v b ms h =
        let (child, e, held) =
          document-Adds es v (bson.document_begin k b).1 no_members
            (keeps.document_begun k b ms c h) in
        (_, rw e refl, keeps.document_ended k b child ms (members_of bson.index_name es) c h held)
    value-Adds k (Object.array xs) c v b ms h =
        let (child, e, held) =
          array-Adds 0 xs v (bson.array_begin k b).1 no_members (keeps.array_begun k b ms c h) in
        (_, rw e refl, keeps.array_ended k b child ms (indexed bson.index_name 0 xs) c h held)

    document-Adds :
        (es : Entries)
        → AreValidEntries es
        → Adds bson keeps (append_document bson es) (members_of bson.index_name es)
    document-Adds no_entries v = done-Adds
    document-Adds (entry k x es) v =
        then-Adds (append_value bson k x) (append_document bson es) k (tree_of bson.index_name x)
          (members_of bson.index_name es) (value-Adds k x v.0 v.1) (document-Adds es v.2)

    array-Adds :
        (i : ℕ) (xs : Elements)
        → AreValid xs
        → Adds bson keeps (append_array bson i xs) (indexed bson.index_name i xs)
    array-Adds i no_elements v = done-Adds
    array-Adds i (element x xs) v =
        then-Adds (append_value bson (bson.index_name (u32 i)) x) (append_array bson (suc i) xs)
          (bson.index_name (u32 i)) (tree_of bson.index_name x) (indexed bson.index_name (suc i) xs)
          (value-Adds (bson.index_name (u32 i)) x (keeps.named (u32 i)) v.0)
          (array-Adds (suc i) xs v.1)

-- The elements of the root document; an object that is no array and no map has none.
abbrev pub root_members : (ℕ → List ℕ) → Object → Option (Members Leaf)
root_members index_name (Object.array xs) = some (indexed index_name 0 xs)
root_members index_name (Object.map es) = some (members_of index_name es)
root_members index_name _ = none

-- For each valid array or map, all functions succeed, and the root document holds its elements in their order.
pub append_root-Holds :
    {B : Type 0} (bson : Bson B) (keeps : Keeps bson) (o : Object) (ms : Members Leaf)
    → IsValid o
    → root_members bson.index_name o ≡ some ms
    → (b : B) × (append_root bson o ≡ some (true, b)) × keeps.Holds b ms
unfolding append_root IsValid append_members
append_root-Holds bson keeps (Object.array xs) ms v e =
    let (b, done, h) = array-Adds bson keeps 0 xs v bson.initializer no_members keeps.starts in
    (b, ap (λ w. some w) done, rw (some-injective (indexed bson.index_name 0 xs) ms e) at h)
append_root-Holds bson keeps (Object.map es) ms v e =
    let (b, done, h) = document-Adds bson keeps es v bson.initializer no_members keeps.starts in
    (b, ap (λ w. some w) done, rw (some-injective (members_of bson.index_name es) ms e) at h)
append_root-Holds bson keeps Object.nil ms v e = absurd cc
append_root-Holds bson keeps (Object.bool x) ms v e = absurd cc
append_root-Holds bson keeps (Object.double x) ms v e = absurd cc
append_root-Holds bson keeps (Object.int x) ms v e = absurd cc
append_root-Holds bson keeps (Object.uint x) ms v e = absurd cc
append_root-Holds bson keeps (Object.str x) ms v e = absurd cc

-- For each valid array or map, `run_test` succeeds with the hash of the bytes of a document that holds its elements
-- in their order, if the library keeps the elements that it is given.
pub run_test-bson_append :
    {B : Type 0} (bson : Bson B) (keeps : Keeps bson) (root_object : Object) (ms : Members Leaf)
    (hash : ℕ)
    → IsValid root_object
    → root_members bson.index_name root_object ≡ some ms
    → (b : B) × (run_test bson root_object hash ≡ some (true, hash_str hash (bson.data_of b)))
      × keeps.Holds b ms
unfolding run_test
run_test-bson_append bson keeps root_object ms hash v e =
    let (b, done, h) = append_root-Holds bson keeps root_object ms v e in
    (b, rw (run_test, done) refl, h)
