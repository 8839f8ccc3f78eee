-- ===== src/Ubj/File/Laws.antt =====
-- What ubj-file.c calls for an object, and what it leaves out.
use schemaless_benchmarks.Base.{
  ℕ, ◌-◌, ◌^◌, ◌<◌, ◌≡◌, refl, arith, Bool, true, false, ltb, List, [], ◌∷◌, ◌++◌, ℤ,
}
use schemaless_benchmarks.Object.{
  Object, Elements, Entries, nil, bool, double, int, uint, str, array, map, no_elements, element,
  no_entries, entry,
}
use schemaless_benchmarks.Object.Append.{append_elements}
use schemaless_benchmarks.Object.Valid.{IsValid, AreValid, AreValidEntries}
use schemaless_benchmarks.Parser.{c_str}
use schemaless_benchmarks.Ubj.Write.{UbjType, Call, end_container, write_key}
use schemaless_benchmarks.Ubj.Write.Document.{calls, element_calls, entry_calls}
use schemaless_benchmarks.Ubj.File.{write_object, write_elements, write_entries}

-- Calls one after the other.
unfoldable pub issue_all : {L : Type 0} → (Call → L → L) → List Call → L → L
issue_all perform [] l = l
issue_all perform (c ∷ cs) l = issue_all perform cs (perform c l)

issue_all-append :
    {L : Type 0} (perform : Call → L → L) (cs ds : List Call) (l : L)
    → issue_all perform (cs ++ ds) l ≡ issue_all perform ds (issue_all perform cs l)
unfolding issue_all
issue_all-append perform [] ds l = refl
issue_all-append perform (c ∷ cs) ds l = issue_all-append perform cs ds (perform c l)

module _ (min_type : ℤ → UbjType) (sized : Bool) {L : Type 0} (perform : Call → L → L) where
  mutual
    unfolding write_object calls issue_all IsValid

    object-calls :
        (o : Object) (l : L)
        → IsValid o
        → write_object min_type perform sized o l
          ≡ (true, issue_all perform (calls min_type sized o) l)
    object-calls nil l v = refl
    object-calls (bool x) l v = refl
    object-calls (double x) l v = refl
    object-calls (int x) l v = refl
    object-calls (str s) l v = refl
    object-calls (uint x) l v =
        let small : ltb (2 ^ 63 - 1) x ≡ false = ground arith in rw small refl
    object-calls (array xs) l v =
        rw
          (
            elements-calls xs _ v,
            issue_all-append perform (element_calls min_type sized xs) (end_container ∷ []) _,
          )
          refl
    object-calls (map es) l v =
        rw
          (
            entries-calls es _ v,
            issue_all-append perform (entry_calls min_type sized es) (end_container ∷ []) _,
          )
          refl

    elements-calls :
        (xs : Elements) (l : L)
        → AreValid xs
        → write_elements min_type perform sized xs l
          ≡ issue_all perform (element_calls min_type sized xs) l
    elements-calls no_elements l v = refl
    elements-calls (element x xs) l v =
        rw
          (
            object-calls x l v.0,
            issue_all-append perform (calls min_type sized x) (element_calls min_type sized xs) l,
          )
          (elements-calls xs _ v.1)

    entries-calls :
        (es : Entries) (l : L)
        → AreValidEntries es
        → write_entries min_type perform sized es l
          ≡ issue_all perform (entry_calls min_type sized es) l
    entries-calls no_entries l v = refl
    entries-calls (entry k x es) l v =
        rw
          (
            object-calls x (perform (write_key (c_str k)) l) v.1,
            issue_all-append perform (calls min_type sized x) (entry_calls min_type sized es)
                (perform (write_key (c_str k)) l),
          )
          (entries-calls es _ v.2)

-- For each valid object and every behaviour of the library's calls, `write_object` succeeds and makes exactly the
-- calls that ubj-write.c makes for the object, with counts and types where `sized` is true.
pub write_object-ubj_write :
    (min_type : ℤ → UbjType) (sized : Bool) {L : Type 0} (perform : Call → L → L) (o : Object)
    (l : L)
    → IsValid o
    → write_object min_type perform sized o l ≡ (true, issue_all perform (calls min_type sized o) l)
write_object-ubj_write min_type sized perform o l v = object-calls min_type sized perform o l v

elements-leaves_out :
    (min_type : ℤ → UbjType) {L : Type 0} (perform : Call → L → L) (u : ℕ) (xs ys : Elements)
    (l : L)
    → 2 ^ 63 - 1 < u
    → write_elements min_type perform false (append_elements xs (element (uint u) ys)) l
      ≡ write_elements min_type perform false (append_elements xs ys) l
unfolding write_object append_elements
elements-leaves_out min_type perform u no_elements ys l large =
    let refused : ltb (2 ^ 63 - 1) u ≡ true = ground arith in rw refused refl
elements-leaves_out min_type perform u (element x xs) ys l large =
    elements-leaves_out min_type perform u xs ys (write_object min_type perform false x l).1 large

-- In the file without counts, a number above INT64_MAX in an array is left out, and `write_object` still succeeds: it
-- does the same for the array with the number and for the array without it.
pub write_object-leaves_out :
    (min_type : ℤ → UbjType) {L : Type 0} (perform : Call → L → L) (u : ℕ) (xs ys : Elements)
    (l : L)
    → 2 ^ 63 - 1 < u
    → ((write_object min_type perform false (array (append_elements xs (element (uint u) ys))) l).0
        ≡ true)
      × (write_object min_type perform false (array (append_elements xs (element (uint u) ys))) l
          ≡ write_object min_type perform false (array (append_elements xs ys)) l)
unfolding write_object
write_object-leaves_out min_type perform u xs ys l large =
    (refl, rw (elements-leaves_out min_type perform u xs ys _ large) refl)
