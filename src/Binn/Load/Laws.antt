-- ===== src/Binn/Load/Laws.antt =====
-- The hash of a `binn` value against the reference hash.
use schemaless_benchmarks.Base.{
  ℕ, ◌+◌, ◌≡◌, refl, ap, ◌∙◌, Bool, Bool-cases, true, false, ◌&&◌, ◌==◌, ==_iff, ◌⊎◌, inl, inr,
  Option, none, some, List, [], ◌∷◌, ◌++◌, length, u32, if◌then◌else◌,
}
use schemaless_benchmarks.Hash.{hash_u32}
use schemaless_benchmarks.HashObject
use schemaless_benchmarks.HashObject.Laws.{canonical, same_hash}
use schemaless_benchmarks.Benchmark.{Malloc, Held, ending}
use schemaless_benchmarks.Benchmark.Copy.{benchmark_in_situ_copy-some, copy_freed}
use schemaless_benchmarks.Object.{Object, count_elements, count_entries}
use schemaless_benchmarks.Parser.{Hashing, update, fail, ◌>>◌, c_str, array_of, map_of}
use schemaless_benchmarks.Parser.Agrees.{
  Follows, Agrees, Counts, Agrees-array, Agrees-map, Agrees-element, Agrees-entry, Counts-element,
  Counts-entry,
}
use schemaless_benchmarks.Binn.Load.{
  Leaf, Value, Items, Members, leaf, list, object, no_items, item, no_members, member, item_count,
  member_count, demand, hash_value, loop_list, loop_object, hash_root, run_test, leaf_value, value,
  values, member_values,
}

-- A loop whose number of rounds is compared with the count that the header has.
counted-Agrees :
    (o : Option Object) (loop : Hashing) (opens : Bool) (n count : ℕ)
    → Agrees HashObject.hash_object o (loop >> update (λ h. hash_u32 h (u32 n)))
    → Agrees HashObject.hash_object
        (if opens && (u32 n == count) then o else none)
        (demand opens >> (loop >> (demand (u32 n == count) >> update (λ h. hash_u32 h count))))
counted-Agrees o loop false n count a = λ h. refl
counted-Agrees o loop true n count a = elim (Bool-cases (u32 n == count)) [
  | inl same ↦ let exact : u32 n ≡ count = (==_iff (u32 n) count).0 same in rw same (rw exact at a)
  | inr differs ↦ rw differs λ h. ends h (Bool-cases (loop h).0)
]
  where
    ends :
        (h : ℕ)
        → ((loop h).0 ≡ true) ⊎ ((loop h).0 ≡ false)
        → ((loop >> (fail >> update (λ k. hash_u32 k count))) h).0 ≡ false
    ends h (inl ok) = rw ok refl
    ends h (inr failed) = rw failed refl

leaf-Agrees : (l : Leaf) → Agrees HashObject.hash_object (leaf_value l) (hash_value (leaf l))
unfolding hash_value HashObject.hash_object
leaf-Agrees Leaf.null = λ h. refl
leaf-Agrees _ = λ h. refl

Counts-values : (ts : Items) → Counts count_elements (values ts) (item_count ts)
unfolding value
Counts-values no_items = refl
Counts-values (item t ts) = Counts-element (value t) (values ts) (item_count ts) (Counts-values ts)

Counts-member_values : (ms : Members) → Counts count_entries (member_values ms) (member_count ms)
unfolding value
Counts-member_values no_members = refl
Counts-member_values (member k t ms) =
    Counts-entry (c_str k) (value t) (member_values ms) (member_count ms) (Counts-member_values ms)

mutual
  unfolding hash_value value HashObject.hash_object

  value-Agrees : (t : Value) → Agrees HashObject.hash_object (value t) (hash_value t)
  value-Agrees (leaf l) = leaf-Agrees l
  value-Agrees (list header ts) =
      counted-Agrees (array_of (values ts)) (loop_list ts) header.opens (item_count ts) header.count
        (Agrees-array (values ts) (loop_list ts) (item_count ts) (Counts-values ts)
          (items-Agrees ts))
  value-Agrees (object header ms) =
      counted-Agrees (map_of (member_values ms)) (loop_object ms) header.opens (member_count ms)
        header.count
        (Agrees-map (member_values ms) (loop_object ms) (member_count ms) (Counts-member_values ms)
          (members-Agrees ms))

  items-Agrees : (ts : Items) → Agrees HashObject.hash_elements (values ts) (loop_list ts)
  items-Agrees no_items = λ h. refl
  items-Agrees (item t ts) =
      Agrees-element (value t) (values ts) (hash_value t) (loop_list ts) (value-Agrees t)
        (items-Agrees ts)

  members-Agrees :
      (ms : Members) → Agrees HashObject.hash_entries (member_values ms) (loop_object ms)
  members-Agrees no_members = λ h. refl
  members-Agrees (member k t ms) =
      Agrees-entry (c_str k) (value t) (member_values ms) (hash_value t) (loop_object ms)
        (value-Agrees t) (members-Agrees ms)

-- For every value, `hash_value` succeeds with the reference hash of the object that the value stands for,
-- and fails if it stands for none: a type that the benchmark does not have, or a list or an object that
-- cannot be read or gives another number of children than its count.
pub hash_value-Follows :
    (t : Value) (hash : ℕ) → Follows HashObject.hash_object (value t) hash (hash_value t hash)
hash_value-Follows t hash = value-Agrees t hash

-- A list or an object.
abbrev pub IsContainer : Value → Type 0
IsContainer (leaf l) = ⊥
IsContainer (list header ts) = Unit
IsContainer (object header ms) = Unit

hash_root-IsContainer : (t : Value) → IsContainer t → hash_root t ≡ hash_value t
hash_root-IsContainer (list header ts) c = refl
hash_root-IsContainer (object header ms) c = refl
hash_root-IsContainer (leaf l) c = absurd c

-- If the copy of the file can be allocated and the library loads from it a list or an object that stands
-- for an object, up to the sign that the format gives unsigned numbers, then `run_test` succeeds with that
-- object's reference hash, and holds what it held before.
pub run_test-binn_load :
    (malloc : Malloc) (binn_load : List ℕ → Value) (file_data : List ℕ) (t : Value)
    (read original : Object) (hash : ℕ) (held : Held)
    → malloc (length file_data + 1) ≡ true
    → binn_load (file_data ++ 0 ∷ []) ≡ t
    → IsContainer t
    → value t ≡ some read
    → canonical read ≡ canonical original
    → run_test malloc binn_load file_data hash held
      ≡ (true, HashObject.hash_object original hash, held)
unfolding run_test
run_test-binn_load malloc binn_load file_data t read original hash held given loaded root stands
      same =
    let followed = hash_value-Follows t hash in
    let exact : hash_value t hash ≡ (true, HashObject.hash_object read hash) =
      rw stands at followed in
    rw
      (
        run_test,
        benchmark_in_situ_copy-some malloc file_data given,
        loaded,
        hash_root-IsContainer t root,
        copy_freed held,
      )
      (ap (λ r. ending r held) (exact ∙ ap (λ x. (true, x)) (same_hash read original hash same)))
