-- ===== src/Ubj/Read/Laws.antt =====
-- The hash of what ubj has read against the reference hash.
use schemaless_benchmarks.Base.{
  ℕ, ◌+◌, ◌≡◌, refl, ap, ◌∙◌, true, false, Option, some, List, [], ◌∷◌, ◌++◌, length, u32, ℤ, suc,
}
use schemaless_benchmarks.Hash.{hash_str, hash_u32}
use schemaless_benchmarks.HashObject
use schemaless_benchmarks.HashObject.Laws.{canonical, same_hash}
use schemaless_benchmarks.Object.{
  Object, Elements, Entries, no_elements, element, no_entries, entry, count_elements, count_entries,
}
use schemaless_benchmarks.Benchmark.{Malloc}
use schemaless_benchmarks.Benchmark.Copy.{benchmark_in_situ_copy-some}
use schemaless_benchmarks.Parser.{c_str}
use schemaless_benchmarks.Ubj.Read.{
  Width, Value, Values, Fields, mixed, nulltype, bool_true, bool_false, float64, integer, string,
  char, array, object, no_values, value, no_fields, field, value_count, field_count, Hashing,
  proceed, update, ◌>>◌, dynamic, hash_value, hash_array, hash_object, run_test,
}

-- A dynamic of such a value has a member for it in its union, or needs none.
abbrev pub IsDynamic : Value → Type 0
IsDynamic (mixed x) = ⊥
IsDynamic (char s) = ⊥
IsDynamic _ = Unit

-- The object that a value stands for. Integers of all widths are read as signed numbers.
mutual
  pub data Stands : Value → Object → Type 0 where
    of_mixed : (x : Value) (o : Object) → IsDynamic x → Stands x o → Stands (mixed x) o
    of_nulltype : Stands nulltype Object.nil
    of_true : Stands bool_true (Object.bool true)
    of_false : Stands bool_false (Object.bool false)
    of_float64 : (d : ℕ) → Stands (float64 d) (Object.double d)
    of_integer : (width : Width) (i : ℤ) → Stands (integer width i) (Object.int i)
    of_string : (s : List ℕ) → Stands (string s) (Object.str (c_str s))
    of_char : (s : List ℕ) → Stands (char s) (Object.str (c_str s))
    of_array :
        (xs : Values) (os : Elements) → StandsElements xs os → Stands (array xs) (Object.array os)
    of_object :
        (xs : Fields) (os : Entries) → StandsEntries xs os → Stands (object xs) (Object.map os)

  pub data StandsElements : Values → Elements → Type 0 where
    of_no_values : StandsElements no_values no_elements
    of_value :
        (x : Value) (o : Object) (xs : Values) (os : Elements)
        → Stands x o
        → StandsElements xs os
        → StandsElements (value x xs) (element o os)

  pub data StandsEntries : Fields → Entries → Type 0 where
    of_no_fields : StandsEntries no_fields no_entries
    of_field :
        (k : List ℕ) (x : Value) (o : Object) (xs : Fields) (os : Entries)
        → Stands x o
        → StandsEntries xs os
        → StandsEntries (field k x xs) (entry (c_str k) o os)

count-StandsElements :
    (xs : Values) (os : Elements) → StandsElements xs os → count_elements os ≡ value_count xs
count-StandsElements _ _ of_no_values = refl
count-StandsElements _ _ (of_value x o xs os s ss) = ap suc (count-StandsElements xs os ss)

count-StandsEntries :
    (xs : Fields) (os : Entries) → StandsEntries xs os → count_entries os ≡ field_count xs
count-StandsEntries _ _ of_no_fields = refl
count-StandsEntries _ _ (of_field k x o xs os s ss) = ap suc (count-StandsEntries xs os ss)

dynamic-IsDynamic : (x : Value) (m : ℕ → Option ℕ) (h : ℕ) → IsDynamic x → dynamic x m h ≡ m h
dynamic-IsDynamic (mixed x) m h d = absurd d
dynamic-IsDynamic (char s) m h d = absurd d
dynamic-IsDynamic _ m h d = refl

-- What follows a part that changes the hash to `h'`.
after :
    (m k : Hashing) (h h' : ℕ) {result : Option ℕ}
    → m h ≡ some h'
    → k h' ≡ result
    → (m >> k) h ≡ result
after m k h h' first second = rw (proceed, first) second

mutual
  unfolding hash_value HashObject.hash_object

  value-hashed :
      (x : Value) (o : Object)
      → Stands x o
      → (h : ℕ) → hash_value x h ≡ some (HashObject.hash_object o h)
  value-hashed _ _ (of_mixed x o d s) h =
      dynamic-IsDynamic x (hash_value x) h d ∙ value-hashed x o s h
  value-hashed _ _ of_nulltype h = refl
  value-hashed _ _ of_true h = refl
  value-hashed _ _ of_false h = refl
  value-hashed _ _ (of_float64 d) h = refl
  value-hashed _ _ (of_integer width i) h = refl
  value-hashed _ _ (of_string s) h = refl
  value-hashed _ _ (of_char s) h = refl
  value-hashed _ _ (of_array xs os ss) h =
      after (hash_array xs) (update (λ g. hash_u32 g (u32 (value_count xs)))) h
        (HashObject.hash_elements os h) (elements-hashed xs os ss h)
        (rw (count-StandsElements xs os ss) refl)
  value-hashed _ _ (of_object xs os ss) h =
      after (hash_object xs) (update (λ g. hash_u32 g (u32 (field_count xs)))) h
        (HashObject.hash_entries os h) (entries-hashed xs os ss h)
        (rw (count-StandsEntries xs os ss) refl)

  elements-hashed :
      (xs : Values) (os : Elements)
      → StandsElements xs os
      → (h : ℕ) → hash_array xs h ≡ some (HashObject.hash_elements os h)
  elements-hashed _ _ of_no_values h = refl
  elements-hashed _ _ (of_value x o xs os s ss) h =
      after (hash_value x) (hash_array xs) h (HashObject.hash_object o h) (value-hashed x o s h)
        (elements-hashed xs os ss (HashObject.hash_object o h))

  entries-hashed :
      (xs : Fields) (os : Entries)
      → StandsEntries xs os
      → (h : ℕ) → hash_object xs h ≡ some (HashObject.hash_entries os h)
  entries-hashed _ _ of_no_fields h = refl
  entries-hashed _ _ (of_field k x o xs os s ss) h =
      after (hash_value x) (hash_object xs) (hash_str h (c_str k))
        (HashObject.hash_object o (hash_str h (c_str k)))
        (value-hashed x o s (hash_str h (c_str k)))
        (entries-hashed xs os ss (HashObject.hash_object o (hash_str h (c_str k))))

-- If the copy of the file can be allocated, and what ubj reads from it stands for an object, up to the sign that
-- UBJSON gives unsigned numbers, then `run_test` reads through no null pointer and succeeds with that object's
-- reference hash.
pub run_test-ubj_read :
    (malloc : Malloc) (ubjr_read_dynamic : List ℕ → ℕ → Value) (file_data : List ℕ) (x : Value)
    (read original : Object) (hash : ℕ)
    → malloc (length file_data + 1) ≡ true
    → ubjr_read_dynamic (file_data ++ 0 ∷ []) (length file_data) ≡ x
    → Stands (mixed x) read
    → canonical read ≡ canonical original
    → run_test malloc ubjr_read_dynamic file_data hash
      ≡ some (true, HashObject.hash_object original hash)
unfolding run_test
run_test-ubj_read malloc ubjr_read_dynamic file_data x read original hash given parsed stands same =
    rw
      (
        run_test,
        benchmark_in_situ_copy-some malloc file_data given,
        parsed,
        value-hashed (mixed x) read stands hash,
      )
      (ap (λ h. some (true, h)) (same_hash read original hash same))
