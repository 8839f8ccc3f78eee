-- ===== src/Yajl/Tree/Laws.antt =====
-- The hash of a `yajl_val` against the reference hash.
use schemaless_benchmarks.Base.{
  ℕ, ◌+◌, ◌≡◌, refl, ap, ◌∙◌, true, Option, some, List, [], ◌∷◌, ◌++◌, length,
}
use schemaless_benchmarks.HashObject
use schemaless_benchmarks.HashObject.Laws.{canonical, same_hash}
use schemaless_benchmarks.Benchmark.{Malloc, Held, copied, ending}
use schemaless_benchmarks.Benchmark.Copy.{benchmark_in_situ_copy-some, copy_freed, value_freed}
use schemaless_benchmarks.Object.{Object}
use schemaless_benchmarks.Parser.{
  Tree, Items, Members, leaf, list, object, no_items, item, no_members, member, item_count,
  member_count, value, values, member_values,
}
use schemaless_benchmarks.Parser.Agrees.{
  Follows, Agrees, Agrees-array, Agrees-map, Agrees-element, Agrees-entry, Counts-values,
  Counts-member_values,
}
use schemaless_benchmarks.Yajl.Tree.{
  Leaf, hash_node, hash_array, hash_members, run_test, leaf_value, key,
}

leaf-Agrees : (l : Leaf) → Agrees HashObject.hash_object (leaf_value l) (hash_node (leaf l))
unfolding hash_node HashObject.hash_object
leaf-Agrees Leaf.null = λ h. refl
leaf-Agrees _ = λ h. refl

mutual
  unfolding hash_node value HashObject.hash_object

  tree-Agrees :
      (t : Tree Leaf) → Agrees HashObject.hash_object (value leaf_value key t) (hash_node t)
  tree-Agrees (leaf l) = leaf-Agrees l
  tree-Agrees (list ts) =
      Agrees-array (values leaf_value key ts) (hash_array ts) (item_count ts)
        (Counts-values leaf_value key ts) (items-Agrees ts)
  tree-Agrees (object ms) =
      Agrees-map (member_values leaf_value key ms) (hash_members ms) (member_count ms)
        (Counts-member_values leaf_value key ms) (members-Agrees ms)

  items-Agrees :
      (ts : Items Leaf) → Agrees HashObject.hash_elements (values leaf_value key ts) (hash_array ts)
  items-Agrees no_items = λ h. refl
  items-Agrees (item t ts) =
      Agrees-element (value leaf_value key t) (values leaf_value key ts) (hash_node t)
        (hash_array ts) (tree-Agrees t) (items-Agrees ts)

  members-Agrees :
      (ms : Members Leaf)
      → Agrees HashObject.hash_entries (member_values leaf_value key ms) (hash_members ms)
  members-Agrees no_members = λ h. refl
  members-Agrees (member k t ms) =
      Agrees-entry (key k) (value leaf_value key t) (member_values leaf_value key ms) (hash_node t)
        (hash_members ms) (tree-Agrees t) (members-Agrees ms)

-- For every tree, `hash_node` succeeds with the reference hash of the object that the tree stands
-- for, and fails if the tree holds a value of a type that the benchmark does not have.
pub hash_node-Follows :
    (t : Tree Leaf) (hash : ℕ)
    → Follows HashObject.hash_object (value leaf_value key t) hash (hash_node t hash)
hash_node-Follows t hash = tree-Agrees t hash

-- If the copy of the file can be allocated and the library parses it to a tree that stands for an
-- object, up to the sign that the format gives unsigned numbers, then `run_test` succeeds with that
-- object's reference hash, and holds what it held before.
pub run_test-yajl_tree :
    (malloc : Malloc) (parse : List ℕ → Option (Tree Leaf)) (file_data : List ℕ) (t : Tree Leaf)
    (read original : Object) (hash : ℕ) (held : Held)
    → malloc (length file_data + 1) ≡ true
    → parse (file_data ++ 0 ∷ []) ≡ some t
    → value leaf_value key t ≡ some read
    → canonical read ≡ canonical original
    → run_test malloc parse file_data hash held ≡ (true, HashObject.hash_object original hash, held)
unfolding run_test
run_test-yajl_tree malloc parse file_data t read original hash held given parsed stands same =
    let followed = hash_node-Follows t hash in
    let exact : hash_node t hash ≡ (true, HashObject.hash_object read hash) =
      rw stands at followed in
    rw
      (
        run_test,
        benchmark_in_situ_copy-some malloc file_data given,
        parsed,
        value_freed (copied held),
        copy_freed held,
      )
      (ap (λ r. ending r held) (exact ∙ ap (λ x. (true, x)) (same_hash read original hash same)))
