-- ===== src/Jansson/Load/Laws.antt =====
-- The hash of a `json_t` against the reference hash.
use schemaless_benchmarks.Base.{
  ℕ, ◌+◌, ◌≡◌, refl, ap, ◌∙◌, Bool, true, Option, none, some, List, [], ◌∷◌, ◌++◌, length,
}
use schemaless_benchmarks.HashObject
use schemaless_benchmarks.HashObject.Laws.{canonical, same_hash}
use schemaless_benchmarks.Benchmark.{Malloc, Held, copied, ending}
use schemaless_benchmarks.Benchmark.Copy.{benchmark_in_situ_copy-some, copy_freed, value_freed}
use schemaless_benchmarks.Object.{Object, Elements, Entries}
use schemaless_benchmarks.Parser.{
  Hashing, ignore, array_of, map_of, element_of, entry_of, Tree, Items, Members, leaf, list, object,
  no_items, item, no_members, member, item_count, member_count, value, values, member_values,
}
use schemaless_benchmarks.Parser.Agrees.{
  Follows, Agrees, Agrees-array, Agrees-map, Agrees-element, Agrees-entry, Counts-values,
  Counts-member_values,
}
use schemaless_benchmarks.Jansson.Load.{
  Leaf, hash_json, hash_array, hash_members, run_test, leaf_value, key,
}

-- There is a value.
abbrev Present : {A : Type 0} → Option A → Type 0
Present none = ⊥
Present (some a) = Unit

Present-element :
    (o : Option Object) (os : Option Elements) → Present o → Present os → Present (element_of o os)
Present-element (some x) (some xs) p q = tt
Present-element none os p q = absurd p
Present-element (some x) none p q = absurd q

Present-entry :
    (k : List ℕ) (o : Option Object) (os : Option Entries)
    → Present o
    → Present os
    → Present (entry_of k o os)
Present-entry k (some x) (some xs) p q = tt
Present-entry k none os p q = absurd p
Present-entry k (some x) none p q = absurd q

Present-array : (os : Option Elements) → Present os → Present (array_of os)
Present-array (some xs) p = tt
Present-array none p = absurd p

Present-map : (os : Option Entries) → Present os → Present (map_of os)
Present-map (some es) p = tt
Present-map none p = absurd p

leaf-Present : (l : Leaf) → Present (leaf_value l)
leaf-Present Leaf.null = tt
leaf-Present _ = tt

mutual
  unfolding value

  tree-Present : (t : Tree Leaf) → Present (value leaf_value key t)
  tree-Present (leaf l) = leaf-Present l
  tree-Present (list ts) = Present-array (values leaf_value key ts) (items-Present ts)
  tree-Present (object ms) = Present-map (member_values leaf_value key ms) (members-Present ms)

  items-Present : (ts : Items Leaf) → Present (values leaf_value key ts)
  items-Present no_items = tt
  items-Present (item t ts) =
      Present-element (value leaf_value key t) (values leaf_value key ts) (tree-Present t)
        (items-Present ts)

  members-Present : (ms : Members Leaf) → Present (member_values leaf_value key ms)
  members-Present no_members = tt
  members-Present (member k t ms) =
      Present-entry (key k) (value leaf_value key t) (member_values leaf_value key ms)
        (tree-Present t) (members-Present ms)

-- Where there is a value, throwing the result away changes nothing.
ignore-Agrees :
    {A : Type 0} (spec : A → ℕ → ℕ) (o : Option A) (m : Hashing)
    → Present o
    → Agrees spec o m
    → Agrees spec o (ignore m)
ignore-Agrees spec (some a) m p agrees = λ h. ap (λ (r : Bool × ℕ). (true, r.1)) (agrees h)
ignore-Agrees spec none m p agrees = absurd p

leaf-Agrees : (l : Leaf) → Agrees HashObject.hash_object (leaf_value l) (hash_json (leaf l))
unfolding hash_json HashObject.hash_object
leaf-Agrees Leaf.null = λ h. refl
leaf-Agrees _ = λ h. refl

mutual
  unfolding hash_json value HashObject.hash_object

  tree-Agrees :
      (t : Tree Leaf) → Agrees HashObject.hash_object (value leaf_value key t) (hash_json t)
  tree-Agrees (leaf l) = leaf-Agrees l
  tree-Agrees (list ts) =
      Agrees-array (values leaf_value key ts) (hash_array ts) (item_count ts)
        (Counts-values leaf_value key ts) (items-Agrees ts)
  tree-Agrees (object ms) =
      Agrees-map (member_values leaf_value key ms) (hash_members ms) (member_count ms)
        (Counts-member_values leaf_value key ms) (members-Agrees ms)

  items-Agrees :
      (ts : Items Leaf) → Agrees HashObject.hash_elements (values leaf_value key ts) (hash_array ts)
  items-Agrees no_items = λ h. refl
  items-Agrees (item t ts) =
      Agrees-element (value leaf_value key t) (values leaf_value key ts) (hash_json t)
        (hash_array ts) (tree-Agrees t) (items-Agrees ts)

  members-Agrees :
      (ms : Members Leaf)
      → Agrees HashObject.hash_entries (member_values leaf_value key ms) (hash_members ms)
  members-Agrees no_members = λ h. refl
  members-Agrees (member k t ms) =
      Agrees-entry (key k) (value leaf_value key t) (member_values leaf_value key ms)
        (ignore (hash_json t)) (hash_members ms)
        (ignore-Agrees HashObject.hash_object (value leaf_value key t) (hash_json t)
          (tree-Present t) (tree-Agrees t))
        (members-Agrees ms)

-- For every tree, `hash_json` succeeds with the reference hash of the object that the tree stands for,
-- though it throws away the results for the members.
pub jansson-Follows :
    (t : Tree Leaf) (hash : ℕ)
    → Present (value leaf_value key t)
      × Follows HashObject.hash_object (value leaf_value key t) hash (hash_json t hash)
jansson-Follows t hash = (tree-Present t, tree-Agrees t hash)

-- If the copy of the file can be allocated and the library parses it to a tree that stands for an
-- object, up to the sign that the format gives unsigned numbers, then `run_test` succeeds with that
-- object's reference hash, and holds what it held before.
pub run_test-jansson :
    (malloc : Malloc) (parse : List ℕ → ℕ → Option (Tree Leaf)) (file_data : List ℕ) (t : Tree Leaf)
    (read original : Object) (hash : ℕ) (held : Held)
    → malloc (length file_data + 1) ≡ true
    → parse (file_data ++ 0 ∷ []) (length file_data) ≡ some t
    → value leaf_value key t ≡ some read
    → canonical read ≡ canonical original
    → run_test malloc parse file_data hash held ≡ (true, HashObject.hash_object original hash, held)
unfolding run_test
run_test-jansson malloc parse file_data t read original hash held given parsed stands same =
    let followed = (jansson-Follows t hash).1 in
    let exact : hash_json t hash ≡ (true, HashObject.hash_object read hash) =
      rw stands at followed in
    rw
      (
        run_test,
        benchmark_in_situ_copy-some malloc file_data given,
        parsed,
        value_freed (copied held),
        copy_freed held,
      )
      (ap (λ r. ending r held) (exact ∙ ap (λ x. (true, x)) (same_hash read original hash same)))
