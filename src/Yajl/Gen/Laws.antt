-- ===== src/Yajl/Gen/Laws.antt =====
-- src/yajl/yajl-gen.c against the events of the object.
use schemaless_benchmarks.Base.{ℕ, ◌≡◌, refl, true, List, [], ◌∷◌, ◌++◌, u32}
use schemaless_benchmarks.Hash.{hash_str}
use schemaless_benchmarks.Generator.Init.{to_signed}
use schemaless_benchmarks.Object.{
  Object, Elements, Entries, nil, bool, double, int, uint, str, array, map, no_elements, element,
  no_entries, entry, count_elements, count_entries,
}
use schemaless_benchmarks.Writer.{
  Writing, ◌>>◌, perform_all, null, boolean, real, signed, unsigned, text, begin_array, end_array,
  begin_map, key, end_map, events, element_events, entry_events, encode_all,
}
use schemaless_benchmarks.Writer.Laws.{
  Emits, Emits-nothing, Emits-append, Emits-one, Grows, trace, perform_all-Grows,
}
use schemaless_benchmarks.Yajl.Gen.{
  Call, gen_null, gen_bool, gen_double, gen_integer, gen_string, array_open, array_close, map_open,
  map_close, gen_object, write_elements, write_entries, run_test, encode,
}

module _ {W : Type 0} (perform : Call → Writing W) where
  mutual
    unfolding gen_object events encode

    object-Emits : (o : Object) → Emits perform encode (gen_object perform o) (events o)
    object-Emits nil = Emits-one perform encode null gen_null refl
    object-Emits (bool x) = Emits-one perform encode (boolean x) (gen_bool x) refl
    object-Emits (double x) = Emits-one perform encode (real x) (gen_double x) refl
    object-Emits (int x) = Emits-one perform encode (signed x) (gen_integer x) refl
    object-Emits (uint x) = Emits-one perform encode (unsigned x) (gen_integer (to_signed x)) refl
    object-Emits (str x) = Emits-one perform encode (text x) (gen_string x) refl
    object-Emits (array xs) =
        Emits-append perform encode (perform array_open)
          (write_elements perform xs >> perform array_close)
          (begin_array (u32 (count_elements xs)) ∷ []) (element_events xs ++ end_array ∷ [])
          (Emits-one perform encode (begin_array (u32 (count_elements xs))) array_open refl)
          (Emits-append perform encode (write_elements perform xs) (perform array_close)
            (element_events xs) (end_array ∷ []) (elements-Emits xs)
            (Emits-one perform encode end_array array_close refl))
    object-Emits (map xs) =
        Emits-append perform encode (perform map_open)
          (write_entries perform xs >> perform map_close) (begin_map (u32 (count_entries xs)) ∷ [])
          (entry_events xs ++ end_map ∷ [])
          (Emits-one perform encode (begin_map (u32 (count_entries xs))) map_open refl)
          (Emits-append perform encode (write_entries perform xs) (perform map_close)
            (entry_events xs) (end_map ∷ []) (entries-Emits xs)
            (Emits-one perform encode end_map map_close refl))

    elements-Emits :
        (xs : Elements) → Emits perform encode (write_elements perform xs) (element_events xs)
    elements-Emits no_elements = Emits-nothing perform encode
    elements-Emits (element x xs) =
        Emits-append perform encode (gen_object perform x) (write_elements perform xs) (events x)
          (element_events xs) (object-Emits x) (elements-Emits xs)

    entries-Emits :
        (xs : Entries) → Emits perform encode (write_entries perform xs) (entry_events xs)
    entries-Emits no_entries = Emits-nothing perform encode
    entries-Emits (entry x v xs) =
        Emits-append perform encode (perform (gen_string x))
          (gen_object perform v >> write_entries perform xs) (key x ∷ [])
          (events v ++ entry_events xs) (Emits-one perform encode (key x) (gen_string x) refl)
          (Emits-append perform encode (gen_object perform v) (write_entries perform xs) (events v)
            (entry_events xs) (object-Emits v) (entries-Emits xs))

  -- For every object and every behaviour of the library's calls, `gen_object` makes exactly the calls for
  -- the object's events, in the order of the document, and ends at the first that fails.
  pub gen_object-yajl :
      (o : Object) (w : W)
      → gen_object perform o w ≡ perform_all perform (encode_all encode (events o)) w
  gen_object-yajl o w = object-Emits o w

-- The calls for the object.
abbrev pub calls : Object → List Call
calls o = encode_all encode (events o)

-- If the library accepts the calls for the object and each call that it accepts adds its bytes, `run_test` succeeds
-- with the hash of what the writer held at the start and the bytes of the calls after it.
pub run_test-yajl_gen :
    {W : Type 0} (perform : Call → Writing W) (contents : W → List ℕ) (added : W → Call → List ℕ)
    (start : W) (root_object : Object) (hash : ℕ)
    → Grows perform contents added
    → (perform_all perform (calls root_object) start).0 ≡ true
    → run_test perform contents start root_object hash
      ≡ (true, hash_str hash (contents start ++ trace perform added (calls root_object) start))
unfolding run_test
run_test-yajl_gen perform contents added start root_object hash grows accepted =
    let grown = perform_all-Grows perform contents added grows (calls root_object) start accepted in
    rw (gen_object-yajl perform root_object start, accepted, grown) refl
