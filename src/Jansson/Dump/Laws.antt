-- ===== src/Jansson/Dump/Laws.antt =====
-- The values that jansson-dump.c owns while it builds a value, and what it leaves.
use mathlib.Core.Path.{subst}
use schemaless_benchmarks.Base.{
  ℕ, ◌≡◌, ◌≢◌, refl, sym, All, Bool, Bool-cases, true, false, inl, inr, ◌⊎◌, Option, none, some,
  List, [], ◌∷◌, pos,
}
use schemaless_benchmarks.Hash.{hash_str}
use schemaless_benchmarks.Generator.Init.Numbers.{to_signed_small}
use schemaless_benchmarks.Generator.Init.Generated.{IsGenerated, AreGenerated, AreGeneratedEntries}
use schemaless_benchmarks.Generator.Text.Keys.{IsLowercase-IsCharacter}
use schemaless_benchmarks.HashObject.Laws.{canonical, canonical_elements, canonical_entries}
use schemaless_benchmarks.Object.{
  Object, Elements, Entries, nil, bool, double, int, uint, str, array, map, no_elements, element,
  no_entries, entry,
}
use schemaless_benchmarks.Object.Append.{
  append_elements-none, append_entries-none, append_elements_assoc, append_entries_assoc, IsFresh,
  IsFresh-append, c_str-IsCharacter,
}
use schemaless_benchmarks.Object.Append as Behind
use schemaless_benchmarks.Parser.{c_str}
use schemaless_benchmarks.Jansson.Dump.{
  Making, Jansson, put, convert, append_elements, set_entries, hash_text, hash_root, run_test,
}
use schemaless_benchmarks.Jansson.Dump.Library.{Owned, Leaves, Takes, Counts}

module _ {V W : Type 0} (json : Jansson V W) (counts : Counts json) where
  -- One round of a loop with a container.
  put-Leaves :
      (parent : V) (before after x result : Object) (others : Owned V) (made : Option V × W)
      (add : V → W → Bool × W) (k : Making V W)
      → Leaves counts.Owns ((parent, before) ∷ others) x made
      → ((child : V) (w : W)
          → counts.Owns w ((child, x) ∷ (parent, before) ∷ others)
          → Takes counts.Owns others parent before after (add child w))
      → ((w : W)
          → counts.Owns w ((parent, after) ∷ others)
          → Leaves counts.Owns others result (k w))
      → Leaves counts.Owns others result (put json (some parent) made add k)
  put-Leaves parent before after x result others (none, w) add k left taken rest =
      counts.released parent before w others left
  put-Leaves parent before after x result others (some child, w) add k left taken rest =
      let took = taken child w left in
      elim (Bool-cases (add child w).0) [
        | inl ok ↦ rw ok (rest (add child w).1 (rw ok at took))
        | inr failed ↦
            rw failed (counts.released parent before (add child w).1 others (rw failed at took))
      ]

  -- One round without a container: the child is lost and the loop ends.
  put-null :
      (x result : Object) (others : Owned V) (made : Option V × W) (add : V → W → Bool × W)
      (k : Making V W)
      → Leaves counts.Owns others x made
      → ((child : V) (w : W)
          → counts.Owns w ((child, x) ∷ others)
          → ((add child w).0 ≡ false) × counts.Owns (add child w).1 others)
      → Leaves counts.Owns others result (put json none made add k)
  put-null x result others (none, w) add k left refuses = counts.null_released w others left
  put-null x result others (some child, w) add k left refuses =
      let (failed, kept) = refuses child w left in
      rw failed (counts.null_released (add child w).1 others kept)

  Leaves-eta :
      (others : Owned V) (o : Object) (made : Option V × W)
      → Leaves counts.Owns others o made
      → Leaves counts.Owns others o (made.0, made.1)
  Leaves-eta others o (none, w) left = left
  Leaves-eta others o (some v, w) left = left

  mutual
    unfolding convert IsGenerated canonical Behind.append_elements Behind.append_entries IsFresh

    convert-Leaves :
        (o : Object) (others : Owned V) (w : W)
        → IsGenerated o
        → counts.Owns w others
        → Leaves counts.Owns others (canonical o) (convert json o w)
    convert-Leaves nil others w g owns = counts.null_made w others owns
    convert-Leaves (bool x) others w g owns = counts.boolean_made x w others owns
    convert-Leaves (double x) others w g owns = counts.real_made x w others owns
    convert-Leaves (int x) others w g owns = counts.integer_made x w others owns
    convert-Leaves (uint x) others w g owns =
        subst (λ i. Leaves counts.Owns others (int (pos x)) (json.integer i w))
          (sym (to_signed_small x g)) (counts.integer_made (pos x) w others owns)
    convert-Leaves (str s) others w g owns = counts.string_made s w others owns
    convert-Leaves (array xs) others w g owns =
        elements-Leaves xs no_elements others (json.new_array w) g.1
          (counts.array_made w others owns)
    convert-Leaves (map es) others w g owns =
        entries-Leaves es no_entries [] others (json.new_object w) g.1 (λ k other. tt)
          (counts.object_made w others owns)

    elements-Leaves :
        (xs before : Elements) (others : Owned V) (made : Option V × W)
        → AreGenerated xs
        → Leaves counts.Owns others (array before) made
        → Leaves counts.Owns others
            (array (Behind.append_elements before (canonical_elements xs)))
            (append_elements json made.0 xs made.1)
    elements-Leaves no_elements before others made g left =
        rw (append_elements-none before) (Leaves-eta others (array before) made left)
    elements-Leaves (element x xs) before others (none, w) g left =
        put-null (canonical x)
          (array (Behind.append_elements before (element (canonical x) (canonical_elements xs))))
          others (convert json x w) (json.array_append_new none)
          (λ v. append_elements json none xs v) (convert-Leaves x others w g.0 left)
          (λ child w' owns. counts.append_null child (canonical x) w' others owns)
    elements-Leaves (element x xs) before others (some parent, w) g left =
        let grown = Behind.append_elements before (element (canonical x) no_elements) in
        put-Leaves parent (array before) (array grown) (canonical x)
          (array (Behind.append_elements before (element (canonical x) (canonical_elements xs))))
          others (convert json x w) (json.array_append_new (some parent))
          (λ v. append_elements json (some parent) xs v)
          (convert-Leaves x ((parent, array before) ∷ others) w g.0 left)
          (λ child w' owns. counts.appended parent child (canonical x) before w' others owns)
          (λ w' owns.
            let rest = elements-Leaves xs grown others (some parent, w') g.1 owns in
            rw
              (append_elements_assoc before (element (canonical x) no_elements)
                (canonical_elements xs))
              at rest)

    entries-Leaves :
        (es before : Entries) (used : List (List ℕ)) (others : Owned V) (made : Option V × W)
        → AreGeneratedEntries used es
        → ((k : List ℕ) → All (λ j. k ≢ j) used → IsFresh k before)
        → Leaves counts.Owns others (map before) made
        → Leaves counts.Owns others
            (map (Behind.append_entries before (canonical_entries es)))
            (set_entries json made.0 es made.1)
    entries-Leaves no_entries before used others made g fresh left =
        rw (append_entries-none before) (Leaves-eta others (map before) made left)
    entries-Leaves (entry k x es) before used others (none, w) g fresh left =
        put-null (canonical x)
          (map (Behind.append_entries before (entry k (canonical x) (canonical_entries es)))) others
          (convert json x w) (json.object_set_new none (c_str k)) (λ v. set_entries json none es v)
          (convert-Leaves x others w g.2 left)
          (λ child w' owns. counts.set_null child (c_str k) (canonical x) w' others owns)
    entries-Leaves (entry k x es) before used others (some parent, w) g fresh left =
        let grown = Behind.append_entries before (entry k (canonical x) no_entries) in
        let plain = c_str-IsCharacter k (IsLowercase-IsCharacter k g.0.0) in
        put-Leaves parent (map before) (map grown) (canonical x)
          (map (Behind.append_entries before (entry k (canonical x) (canonical_entries es)))) others
          (convert json x w) (json.object_set_new (some parent) (c_str k))
          (λ v. set_entries json (some parent) es v)
          (convert-Leaves x ((parent, map before) ∷ others) w g.2 left)
          (λ child w' owns.
            rw plain
              (counts.set_behind parent child k (canonical x) before w' others (fresh k g.1) owns))
          (λ w' owns.
            let rest =
              entries-Leaves es grown (k ∷ used) others (some parent, w') g.3
                (λ j differs. IsFresh-append j k (canonical x) before differs.0 (fresh j differs.1))
                owns in
            rw
              (append_entries_assoc before (entry k (canonical x) no_entries)
                (canonical_entries es))
              at rest)

-- For each object that the generator can make, and however the library's functions fail: where the object is
-- converted and `json_dumps` returns a null pointer, the test passes it to `strlen` and has no result. Else
-- `run_test` returns false with the hash unchanged, or true with the hash of the text that Jansson prints for the
-- object with its numbers signed; in both cases the test owns the same values as before: none of those that it made
-- is left.
pub run_test-jansson_dump :
    {V W : Type 0} (json : Jansson V W) (counts : Counts json) (root_object : Object) (hash : ℕ)
    (w : W) (others : Owned V)
    → IsGenerated root_object
    → counts.Owns w others
    → ((root : V) × (w' : W) × (convert json root_object w ≡ (some root, w'))
        × ((json.dumps root w').0 ≡ none)
        × (run_test json root_object hash w ≡ none))
      ⊎ ((w' : W) × counts.Owns w' others
          × ((run_test json root_object hash w ≡ some (false, hash, w'))
              ⊎ (run_test json root_object hash w
                  ≡ some
                      (true, hash_str hash (c_str (counts.printed (canonical root_object))), w'))))
unfolding run_test
run_test-jansson_dump {V} {W} json counts root_object hash w others g owns =
    finished (convert json root_object w) (convert-Leaves json counts root_object others w g owns)
  where
    finished :
        (made : Option V × W)
        → Leaves counts.Owns others (canonical root_object) made
        → ((root : V) × (w' : W) × (made ≡ (some root, w'))
            × ((json.dumps root w').0 ≡ none)
            × (hash_root json made hash ≡ none))
          ⊎ ((w' : W) × counts.Owns w' others
              × ((hash_root json made hash ≡ some (false, hash, w'))
                  ⊎ (hash_root json made hash
                      ≡ some (
                        true,
                        hash_str hash (c_str (counts.printed (canonical root_object))),
                        w',
                      ))))
    finished (none, w') left = inr (w', left, inl refl)
    finished (some root, w') left =
        let freed = json.free (json.dumps root w').1 in
        elim (counts.dumped root (canonical root_object) w' others left) [
          | inl failed ↦ inl (root, w', refl, failed, rw (hash_text, failed) refl)
          | inr dumped ↦ inr (
            json.decref (some root) freed,
            counts.released root (canonical root_object) freed others dumped.1,
            inr (rw (hash_text, dumped.0) refl),
          )
        ]
