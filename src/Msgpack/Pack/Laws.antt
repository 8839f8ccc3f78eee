-- ===== src/Msgpack/Pack/Laws.antt =====
-- src/msgpack/msgpack-c-pack.c against the events of the object.
use schemaless_benchmarks.Base.{ℕ, ◌≡◌, refl, true, false, List, [], ◌∷◌, ◌++◌, u32, length}
use schemaless_benchmarks.Hash.{hash_str}
use schemaless_benchmarks.Object.{
  Object, Elements, Entries, nil, bool, double, int, uint, str, array, map, no_elements, element,
  no_entries, entry, count_elements, count_entries,
}
use schemaless_benchmarks.Writer.{
  Writing, ◌>>◌, perform_all, null, boolean, real, signed, unsigned, text, begin_array, end_array,
  begin_map, key, end_map, events, element_events, entry_events, encode_all, bytes_all,
}
use schemaless_benchmarks.Writer.Laws.{
  Emits, Emits-nothing, Emits-append, Emits-one, Emits-two, Emits-silent, Appends,
  perform_all-Appends,
}
use schemaless_benchmarks.Msgpack.Pack.{
  Call, pack_nil, pack_true, pack_false, pack_double, pack_long_long, pack_unsigned_long_long,
  pack_str, pack_str_body, pack_array, pack_map, pack_object, write_elements, write_entries,
  run_test, encode,
}

module _ {W : Type 0} (perform : Call → Writing W) where
  mutual
    unfolding pack_object events encode

    object-Emits : (o : Object) → Emits perform encode (pack_object perform o) (events o)
    object-Emits nil = Emits-one perform encode null pack_nil refl
    object-Emits (bool true) = Emits-one perform encode (boolean true) pack_true refl
    object-Emits (bool false) = Emits-one perform encode (boolean false) pack_false refl
    object-Emits (double x) = Emits-one perform encode (real x) (pack_double x) refl
    object-Emits (int x) = Emits-one perform encode (signed x) (pack_long_long x) refl
    object-Emits (uint x) = Emits-one perform encode (unsigned x) (pack_unsigned_long_long x) refl
    object-Emits (str x) =
        Emits-two perform encode (text x) (pack_str (u32 (length x))) (pack_str_body x) refl
    object-Emits (array xs) =
        Emits-append perform encode (perform (pack_array (u32 (count_elements xs))))
          (write_elements perform xs) (begin_array (u32 (count_elements xs)) ∷ [])
          (element_events xs ++ end_array ∷ [])
          (Emits-one perform encode (begin_array (u32 (count_elements xs)))
            (pack_array (u32 (count_elements xs))) refl)
          (Emits-silent perform encode (write_elements perform xs) (element_events xs) end_array
            refl (elements-Emits xs))
    object-Emits (map xs) =
        Emits-append perform encode (perform (pack_map (u32 (count_entries xs))))
          (write_entries perform xs) (begin_map (u32 (count_entries xs)) ∷ [])
          (entry_events xs ++ end_map ∷ [])
          (Emits-one perform encode (begin_map (u32 (count_entries xs)))
            (pack_map (u32 (count_entries xs))) refl)
          (Emits-silent perform encode (write_entries perform xs) (entry_events xs) end_map refl
            (entries-Emits xs))

    elements-Emits :
        (xs : Elements) → Emits perform encode (write_elements perform xs) (element_events xs)
    elements-Emits no_elements = Emits-nothing perform encode
    elements-Emits (element x xs) =
        Emits-append perform encode (pack_object perform x) (write_elements perform xs) (events x)
          (element_events xs) (object-Emits x) (elements-Emits xs)

    entries-Emits :
        (xs : Entries) → Emits perform encode (write_entries perform xs) (entry_events xs)
    entries-Emits no_entries = Emits-nothing perform encode
    entries-Emits (entry x v xs) =
        Emits-append perform encode
          (perform (pack_str (u32 (length x))) >> perform (pack_str_body x))
          (pack_object perform v >> write_entries perform xs) (key x ∷ [])
          (events v ++ entry_events xs)
          (Emits-two perform encode (key x) (pack_str (u32 (length x))) (pack_str_body x) refl)
          (Emits-append perform encode (pack_object perform v) (write_entries perform xs) (events v)
            (entry_events xs) (object-Emits v) (entries-Emits xs))

  -- For every object and every behaviour of the library's calls, `pack_object` makes exactly the calls for
  -- the object's events, in the order of the document, and ends at the first that fails.
  pub pack_object-msgpack :
      (o : Object) (w : W)
      → pack_object perform o w ≡ perform_all perform (encode_all encode (events o)) w
  pack_object-msgpack o w = object-Emits o w

-- If every call succeeds and adds its bytes to the contents, `run_test` succeeds with the hash of
-- what the writer held at the start and the bytes for all the object's events after it.
pub run_test-msgpack_pack :
    {W : Type 0} (perform : Call → Writing W) (contents : W → List ℕ) (bytes_of : Call → List ℕ)
    (start : W) (root_object : Object) (hash : ℕ)
    → Appends perform contents bytes_of
    → run_test perform contents start root_object hash ≡ (
      true,
      hash_str hash (contents start ++ bytes_all bytes_of (encode_all encode (events root_object))),
    )
unfolding run_test
run_test-msgpack_pack perform contents bytes_of start root_object hash adds =
    let (ok, grown) =
      perform_all-Appends perform contents bytes_of adds (encode_all encode (events root_object))
        start in
    rw (pack_object-msgpack perform root_object start, ok, grown) refl
