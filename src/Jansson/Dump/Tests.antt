-- ===== src/Jansson/Dump/Tests.antt =====
-- A library whose memory is the list of the values that are owned.
use schemaless_benchmarks.Base.{
  ℕ, ◌≡◌, refl, Bool, true, false, ◌⊎◌, inr, Option, none, some, List, [], ◌∷◌,
}
use schemaless_benchmarks.Hash.{hash_str}
use schemaless_benchmarks.HashObject.Laws.{canonical}
use schemaless_benchmarks.Object.{
  Object, nil, bool, double, int, str, array, map, no_elements, element, no_entries, entry,
}
use schemaless_benchmarks.Object.Append.{append_elements, append_entries}
use schemaless_benchmarks.Object.Samples.{sample, sample-IsGenerated}
use schemaless_benchmarks.Parser.{c_str}
use schemaless_benchmarks.Jansson.Dump.{Making, Jansson, convert, run_test}
use schemaless_benchmarks.Jansson.Dump.Library.{Owned, Counts}
use schemaless_benchmarks.Jansson.Dump.Laws.{run_test-jansson_dump}

abbrev make : Object → Making ℕ (Owned ℕ)
make o w = (some 0, (0, o) ∷ w)

abbrev drop_last : Owned ℕ → Owned ℕ
drop_last [] = []
drop_last (v ∷ w) = w

abbrev append : Option ℕ → ℕ → Owned ℕ → Bool × Owned ℕ
append (some parent) child ((c, x) ∷ (p, array xs) ∷ w) =
    (true, (p, array (append_elements xs (element x no_elements))) ∷ w)
append parent child w = (false, drop_last w)

abbrev set : Option ℕ → List ℕ → ℕ → Owned ℕ → Bool × Owned ℕ
set (some parent) k child ((c, x) ∷ (p, map es) ∷ w) =
    (true, (p, map (append_entries es (entry k x no_entries))) ∷ w)
set parent k child w = (false, drop_last w)

abbrev release : Option ℕ → Owned ℕ → Owned ℕ
release none w = w
release (some v) w = drop_last w

abbrev text : List ℕ
text = b'{' ∷ b'}' ∷ []

abbrev json : Jansson ℕ (Owned ℕ)
json = record {
  boolean = λ x. make (bool x);
  null = make nil;
  integer = λ x. make (int x);
  real = λ x. make (double x);
  stringn = λ s. make (str s);
  new_array = make (array no_elements);
  new_object = make (map no_entries);
  array_append_new = append;
  object_set_new = set;
  decref = release;
  dumps = λ v w. (some text, w);
  free = λ w. w;
}

counts : Counts json
counts = record {
  Owns = λ w others. w ≡ others;
  printed = λ o. text;
  boolean_made = λ x w others e. rw e refl;
  null_made = λ w others e. rw e refl;
  integer_made = λ x w others e. rw e refl;
  real_made = λ x w others e. rw e refl;
  string_made = λ s w others e. rw e refl;
  array_made = λ w others e. rw e refl;
  object_made = λ w others e. rw e refl;
  appended = λ parent child x xs w others e. rw e refl;
  set_behind = λ parent child k x es w others fresh e. rw e refl;
  append_null = λ child x w others e. rw e (refl, refl);
  set_null = λ child k x w others e. rw e (refl, refl);
  released = λ v o w others e. rw e refl;
  null_released = λ w others e. e;
  dumped = λ v o w others e. inr (refl, e);
}

run_test-jansson_dump_example :
    ((root : ℕ) × (w' : Owned ℕ) × (convert json sample [] ≡ (some root, w'))
      × ((json.dumps root w').0 ≡ none)
      × (run_test json sample 15373 [] ≡ none))
    ⊎ ((w' : Owned ℕ) × counts.Owns w' []
        × ((run_test json sample 15373 [] ≡ some (false, 15373, w'))
            ⊎ (run_test json sample 15373 []
                ≡ some (true, hash_str 15373 (c_str (counts.printed (canonical sample))), w'))))
unfolding counts
run_test-jansson_dump_example =
    run_test-jansson_dump json counts sample 15373 [] [] sample-IsGenerated refl
