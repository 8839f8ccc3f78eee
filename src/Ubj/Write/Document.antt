-- ===== src/Ubj/Write/Document.antt =====
-- src/ubj/ubj-write.c against the calls for the object.
use schemaless_benchmarks.Base.{
  and_then, ℕ, ◌^◌, ◌<◌, ◌≡◌, refl, ◌∙◌, arith, Bool, Bool-cases, true, false, inl, inr, ◌⊎◌,
  Option, none, some, List, [], ◌∷◌, ◌++◌, length, if◌then◌else◌, ℤ,
}
use schemaless_benchmarks.Hash.{hash_str}
use schemaless_benchmarks.Buffer.{Realloc, buffer_init}
use schemaless_benchmarks.Buffer.Write.{buffer_init-IsValid}
use schemaless_benchmarks.Generator.Init.{to_signed}
use schemaless_benchmarks.Object.{
  Object, Elements, Entries, nil, bool, double, int, uint, str, array, map, no_elements, element,
  no_entries, entry, count_elements, count_entries,
}
use schemaless_benchmarks.Parser.{c_str}
use schemaless_benchmarks.Ubj.Write.{
  UbjType, ubj_mixed, Call, write_null, write_bool, write_float64, write_integer, write_string,
  begin_array, begin_object, write_key, end_container, Ubjw, Output, type_of_elements,
  type_of_entries, write_object, write_elements, write_entries, perform, run_test,
}
use schemaless_benchmarks.Ubj.Write.Laws.{perform_calls, trace, calls-Written, calls_before_calls}

module _ (min_type : ℤ → UbjType) (optimized : Bool) where
  abbrev opening : Elements → Call
  opening xs =
      if optimized
      then begin_array (type_of_elements min_type xs) (count_elements xs)
      else begin_array ubj_mixed 0

  abbrev opening_map : Entries → Call
  opening_map es =
      if optimized
      then begin_object (type_of_entries min_type es) (count_entries es)
      else begin_object ubj_mixed 0

  -- The calls for an object, in the order of the document.
  unfoldable mutual
    pub calls : Object → List Call
    calls nil = write_null ∷ []
    calls (bool b) = write_bool b ∷ []
    calls (double d) = write_float64 d ∷ []
    calls (int i) = write_integer i ∷ []
    calls (uint u) = write_integer (to_signed u) ∷ []
    calls (str s) = write_string (c_str s) ∷ []
    calls (array xs) = opening xs ∷ (element_calls xs ++ end_container ∷ [])
    calls (map es) = opening_map es ∷ (entry_calls es ++ end_container ∷ [])

    pub element_calls : Elements → List Call
    element_calls no_elements = []
    element_calls (element x xs) = calls x ++ element_calls xs

    pub entry_calls : Entries → List Call
    entry_calls no_entries = []
    entry_calls (entry k x es) = write_key (c_str k) ∷ (calls x ++ entry_calls es)

  module _ {L : Type 0} (ubjw : Ubjw L) (realloc : Realloc) where
    abbrev all_of : List Call → L × Output → Option (L × Output)
    all_of cs = perform_calls ubjw realloc cs

    only : (c : Call) (s : L × Output) → perform ubjw realloc c s ≡ all_of (c ∷ []) s
    unfolding perform_calls
    only c s = ended (perform ubjw realloc c s)
      where
        ended : (o : Option (L × Output)) → o ≡ and_then o (λ t. some t)
        ended none = refl
        ended (some t) = refl

    -- Parts that make their calls, one after the other.
    both :
        (m k : L × Output → Option (L × Output)) (cs ds : List Call)
        → ((s : L × Output) → m s ≡ all_of cs s)
        → ((s : L × Output) → k s ≡ all_of ds s)
        → (s : L × Output) → and_then (m s) k ≡ all_of (cs ++ ds) s
    both m k cs ds p q s = rw (p s) (alike (all_of cs s)) ∙ calls_before_calls ubjw realloc cs ds s
      where
        alike : (o : Option (L × Output)) → and_then o k ≡ and_then o (all_of ds)
        alike none = refl
        alike (some t) = q t

    nothing : (s : L × Output) → some s ≡ all_of [] s
    unfolding perform_calls
    nothing s = refl

    mutual
      unfolding write_object calls

      object-calls :
          (o : Object) (s : L × Output)
          → write_object min_type optimized (perform ubjw realloc) o s ≡ all_of (calls o) s
      object-calls nil s = only write_null s
      object-calls (bool b) s = only (write_bool b) s
      object-calls (double d) s = only (write_float64 d) s
      object-calls (int i) s = only (write_integer i) s
      object-calls (uint u) s = only (write_integer (to_signed u)) s
      object-calls (str b) s = only (write_string (c_str b)) s
      object-calls (array xs) s =
          both (perform ubjw realloc (opening xs))
            (λ t.
              and_then (write_elements min_type optimized (perform ubjw realloc) xs t)
                (perform ubjw realloc end_container))
            (opening xs ∷ []) (element_calls xs ++ end_container ∷ []) (only (opening xs))
            (both (write_elements min_type optimized (perform ubjw realloc) xs)
              (perform ubjw realloc end_container) (element_calls xs) (end_container ∷ [])
              (elements-calls xs) (only end_container))
            s
      object-calls (map es) s =
          both (perform ubjw realloc (opening_map es))
            (λ t.
              and_then (write_entries min_type optimized (perform ubjw realloc) es t)
                (perform ubjw realloc end_container))
            (opening_map es ∷ []) (entry_calls es ++ end_container ∷ []) (only (opening_map es))
            (both (write_entries min_type optimized (perform ubjw realloc) es)
              (perform ubjw realloc end_container) (entry_calls es) (end_container ∷ [])
              (entries-calls es) (only end_container))
            s

      elements-calls :
          (xs : Elements) (s : L × Output)
          → write_elements min_type optimized (perform ubjw realloc) xs s
            ≡ all_of (element_calls xs) s
      elements-calls no_elements s = nothing s
      elements-calls (element x xs) s =
          both (write_object min_type optimized (perform ubjw realloc) x)
            (write_elements min_type optimized (perform ubjw realloc) xs) (calls x)
            (element_calls xs) (object-calls x) (elements-calls xs) s

      entries-calls :
          (es : Entries) (s : L × Output)
          → write_entries min_type optimized (perform ubjw realloc) es s ≡ all_of (entry_calls es) s
      entries-calls no_entries s = nothing s
      entries-calls (entry k x es) s =
          both (perform ubjw realloc (write_key (c_str k)))
            (λ t.
              and_then (write_object min_type optimized (perform ubjw realloc) x t)
                (write_entries min_type optimized (perform ubjw realloc) es))
            (write_key (c_str k) ∷ []) (calls x ++ entry_calls es) (only (write_key (c_str k)))
            (both (write_object min_type optimized (perform ubjw realloc) x)
              (write_entries min_type optimized (perform ubjw realloc) es) (calls x)
              (entry_calls es) (object-calls x) (entries-calls es))
            s

-- The output before a run.
abbrev fresh : Bool → Output
fresh error_occurred = record { buffer = buffer_init; error_occurred = error_occurred }

-- What a run returns for what its calls leave.
run-calls :
    {L : Type 0} (min_type : ℤ → UbjType) (optimized : Bool) (ubjw : Ubjw L) (realloc : Realloc)
    (start : L) (error_occurred : Bool) (root_object : Object) (hash : ℕ) (state : L × Output)
    → perform_calls ubjw realloc
        (calls min_type optimized root_object)
        (start, fresh error_occurred)
      ≡ some state
    → run_test min_type optimized ubjw realloc start error_occurred root_object hash
      ≡ some (
          if state.1.error_occurred
          then (false, hash)
          else (true, hash_str hash state.1.buffer.contents))
unfolding run_test
run-calls min_type optimized ubjw realloc start error_occurred root_object hash state e =
    rw
      (
        and_then,
        object-calls min_type optimized ubjw realloc root_object (start, fresh error_occurred),
        e,
      )
      refl

-- For less than 2 ^ 62 bytes and every behaviour of ubj and of `realloc`, `run_test` returns. It returns false with
-- the hash unchanged; or no error had occurred before, and it returns true with the hash of exactly the first `count`
-- bytes of each piece that ubj gives to the callback in the calls for the object, whatever their `size`.
pub run_test-ubj_write :
    {L : Type 0} (min_type : ℤ → UbjType) (optimized : Bool) (ubjw : Ubjw L) (realloc : Realloc)
    (start : L) (error_occurred : Bool) (root_object : Object) (hash : ℕ)
    → length (trace ubjw realloc start (calls min_type optimized root_object)) < 2 ^ 62
    → (run_test min_type optimized ubjw realloc start error_occurred root_object hash
        ≡ some (false, hash))
      ⊎ ((error_occurred ≡ false)
          × (run_test min_type optimized ubjw realloc start error_occurred root_object hash
              ≡ some (
                true,
                hash_str hash (trace ubjw realloc start (calls min_type optimized root_object)),
              )))
unfolding buffer_init
run_test-ubj_write min_type optimized ubjw realloc start error_occurred root_object hash small =
    let (state, e, w) =
      calls-Written ubjw realloc ⊥ (λ fine. absurd fine) (λ fine. absurd fine)
        (calls min_type optimized root_object) start (fresh error_occurred) buffer_init-IsValid
        (omega (arith, small)) in
    let ran =
      run-calls min_type optimized ubjw realloc start error_occurred root_object hash state e in
    elim (Bool-cases state.1.error_occurred) [
      | inl bad ↦ inl (rw bad at ran)
      | inr fine ↦ let (clear, whole) = w.whole fine in inr (clear, rw (fine, whole) at ran)
    ]

-- For less than 2 ^ 62 bytes, if no error has occurred before, `realloc` gives every block, and ubj reports no error,
-- then `run_test` succeeds with the hash of the first `count` bytes of each piece that ubj gives to the callback in
-- the calls for the object, whatever their `size`.
pub ubj_write-run_test :
    {L : Type 0} (min_type : ℤ → UbjType) (optimized : Bool) (ubjw : Ubjw L) (realloc : Realloc)
    (start : L) (root_object : Object) (hash : ℕ)
    → length (trace ubjw realloc start (calls min_type optimized root_object)) < 2 ^ 62
    → ((size : ℕ) → realloc size ≡ true)
    → ((l : L) (c : Call) → ubjw.complains l c ≡ false)
    → run_test min_type optimized ubjw realloc start false root_object hash
      ≡ some (true, hash_str hash (trace ubjw realloc start (calls min_type optimized root_object)))
unfolding buffer_init
ubj_write-run_test min_type optimized ubjw realloc start root_object hash small grants calm =
    let (state, e, w) =
      calls-Written ubjw realloc Unit (λ fine. grants) (λ fine. calm)
        (calls min_type optimized root_object) start (fresh false) buffer_init-IsValid
        (omega (arith, small)) in
    let ran = run-calls min_type optimized ubjw realloc start false root_object hash state e in
    let fine = w.clean tt refl in let (clear, whole) = w.whole fine in rw (fine, whole) at ran
