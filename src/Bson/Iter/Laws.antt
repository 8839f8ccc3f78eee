-- ===== src/Bson/Iter/Laws.antt =====
-- The hash of a BSON document against the reference hash. It throws results away, so that it may
-- succeed on a document that stands for no object.
use schemaless_benchmarks.Base.{
  ℕ, ◌+◌, ◌≡◌, refl, ap, ◌∙◌, Bool, Bool-cases, true, inl, inr, Option, none, some, List, [], ◌∷◌,
  ◌++◌, length, u32, if◌then◌else◌,
}
use schemaless_benchmarks.Hash.{hash_initial_value, hash_u32, hash_str}
use schemaless_benchmarks.HashObject
use schemaless_benchmarks.HashObject.Laws.{canonical, same_hash}
use schemaless_benchmarks.Benchmark.{Malloc, Held, copied, ending}
use schemaless_benchmarks.Benchmark.Copy.{benchmark_in_situ_copy-some, copy_freed, value_freed}
use schemaless_benchmarks.Object.{Object, Elements, Entries, count_elements, count_entries}
use schemaless_benchmarks.Parser.{
  Hashing, update, ignore, ◌>>◌, Tree, Items, Members, leaf, list, object, no_items, item,
  no_members, member, item_count, member_count, array_of, map_of, element_of, entry_of, value,
  values, member_values,
}
use schemaless_benchmarks.Parser.Agrees.{
  Agrees, Counts, Agrees-array, Agrees-map, Agrees-element, Agrees-entry, Counts-values,
  Counts-member_values,
}
use schemaless_benchmarks.Bson.Iter.{
  Leaf, hash_value, loop_array, loop_document, hash_array, hash_document, elements_of, is_array,
  run_test, leaf_value, key,
}

-- Where there is a value, the function succeeds with the hash that the specification gives.
abbrev Reads : {A : Type 0} → (A → ℕ → ℕ) → Option A → Hashing → Type 0
Reads spec none m = Unit
Reads spec (some a) m = Agrees spec (some a) m

Reads-ignore :
    {A : Type 0} (spec : A → ℕ → ℕ) (o : Option A) (m : Hashing)
    → Reads spec o m
    → Reads spec o (ignore m)
Reads-ignore spec none m a = tt
Reads-ignore spec (some x) m a = λ h. ap (λ (r : Bool × ℕ). (true, r.1)) (a h)

Reads-array :
    (os : Option Elements) (m : Hashing) (n : ℕ)
    → Counts count_elements os n
    → Reads HashObject.hash_elements os m
    → Reads HashObject.hash_object (array_of os) (m >> update (λ h. hash_u32 h (u32 n)))
Reads-array none m n c a = tt
Reads-array (some xs) m n c a = Agrees-array (some xs) m n c a

Reads-map :
    (os : Option Entries) (m : Hashing) (n : ℕ)
    → Counts count_entries os n
    → Reads HashObject.hash_entries os m
    → Reads HashObject.hash_object (map_of os) (m >> update (λ h. hash_u32 h (u32 n)))
Reads-map none m n c a = tt
Reads-map (some es) m n c a = Agrees-map (some es) m n c a

Reads-element :
    (o : Option Object) (os : Option Elements) (m ms : Hashing)
    → Reads HashObject.hash_object o m
    → Reads HashObject.hash_elements os ms
    → Reads HashObject.hash_elements (element_of o os) (m >> ms)
Reads-element none os m ms a b = tt
Reads-element (some x) none m ms a b = tt
Reads-element (some x) (some xs) m ms a b = Agrees-element (some x) (some xs) m ms a b

Reads-entry :
    (k : List ℕ) (o : Option Object) (os : Option Entries) (m ms : Hashing)
    → Reads HashObject.hash_object o m
    → Reads HashObject.hash_entries os ms
    → Reads HashObject.hash_entries (entry_of k o os) (update (λ h. hash_str h k) >> (m >> ms))
Reads-entry k none os m ms a b = tt
Reads-entry k (some x) none m ms a b = tt
Reads-entry k (some x) (some es) m ms a b = Agrees-entry k (some x) (some es) m ms a b

leaf-Reads : (l : Leaf) → Reads HashObject.hash_object (leaf_value l) (hash_value (leaf l))
unfolding hash_value HashObject.hash_object
leaf-Reads Leaf.other = tt
leaf-Reads _ = λ h. refl

mutual
  unfolding hash_value value HashObject.hash_object

  tree-Reads :
      (t : Tree Leaf) → Reads HashObject.hash_object (value leaf_value key t) (hash_value t)
  tree-Reads (leaf l) = leaf-Reads l
  tree-Reads (list ts) =
      Reads-ignore HashObject.hash_object (array_of (values leaf_value key ts)) (hash_array ts) (
        Reads-array (values leaf_value key ts) (loop_array ts) (item_count ts)
          (Counts-values leaf_value key ts) (items-Reads ts))
  tree-Reads (object ms) =
      Reads-ignore HashObject.hash_object (map_of (member_values leaf_value key ms))
        (hash_document ms)
        (Reads-map (member_values leaf_value key ms) (loop_document ms) (member_count ms)
          (Counts-member_values leaf_value key ms) (members-Reads ms))

  items-Reads :
      (ts : Items Leaf) → Reads HashObject.hash_elements (values leaf_value key ts) (loop_array ts)
  items-Reads no_items = λ h. refl
  items-Reads (item t ts) =
      Reads-element (value leaf_value key t) (values leaf_value key ts) (hash_value t)
        (loop_array ts) (tree-Reads t) (items-Reads ts)

  members-Reads :
      (ms : Members Leaf)
      → Reads HashObject.hash_entries (member_values leaf_value key ms) (loop_document ms)
  members-Reads no_members = λ h. refl
  members-Reads (member k t ms) =
      Reads-entry (key k) (value leaf_value key t) (member_values leaf_value key ms) (hash_value t)
        (loop_document ms) (tree-Reads t) (members-Reads ms)

-- The object that a root document stands for.
abbrev pub root_value : Members Leaf → Option Object
root_value ms =
    if is_array ms
    then array_of (values leaf_value key (elements_of ms))
    else map_of (member_values leaf_value key ms)

root-Reads :
    (ms : Members Leaf)
    → Reads HashObject.hash_object
        (root_value ms)
        (λ h. if is_array ms then hash_array (elements_of ms) h else hash_document ms h)
root-Reads ms = elim (Bool-cases (is_array ms)) [
  | inl from_zero ↦ rw from_zero (
      Reads-array (values leaf_value key (elements_of ms)) (loop_array (elements_of ms))
        (item_count (elements_of ms)) (Counts-values leaf_value key (elements_of ms))
        (items-Reads (elements_of ms)))
  | inr other_key ↦ rw other_key (
      Reads-map (member_values leaf_value key ms) (loop_document ms) (member_count ms)
        (Counts-member_values leaf_value key ms) (members-Reads ms))
]

-- If the copy of the file can be allocated and the library reads a root document that stands for an
-- object, up to the sign that the format gives unsigned numbers, then `run_test` succeeds with that
-- object's reference hash from the initial value, whatever the hash was before, and holds what it held before.
pub run_test-bson :
    (malloc : Malloc) (parse : List ℕ → ℕ → Option (Members Leaf)) (file_data : List ℕ)
    (ms : Members Leaf) (read original : Object) (hash : ℕ) (held : Held)
    → malloc (length file_data + 1) ≡ true
    → parse (file_data ++ 0 ∷ []) (length file_data) ≡ some ms
    → root_value ms ≡ some read
    → canonical read ≡ canonical original
    → run_test malloc parse file_data hash held
      ≡ (true, HashObject.hash_object original hash_initial_value, held)
unfolding run_test
run_test-bson malloc parse file_data ms read original hash held given parsed stands same =
    let reads = root-Reads ms in
    let exact = (rw stands at reads) in
    rw
      (
        run_test,
        benchmark_in_situ_copy-some malloc file_data given,
        parsed,
        value_freed (copied held),
        copy_freed held,
      )
      (ap (λ r. ending r held)
        (exact hash_initial_value
          ∙ ap (λ x. (true, x)) (same_hash read original hash_initial_value same)))
