-- ===== src/Mpack/Write/Laws.antt =====
-- src/mpack/mpack-write.c against the events of the object.
use schemaless_benchmarks.Base.{ℕ, ◌≡◌, refl, true, Bool, List, [], ◌∷◌, ◌++◌, u32}
use schemaless_benchmarks.Hash.{hash_str}
use schemaless_benchmarks.Object.{
  Object, Elements, Entries, nil, bool, double, int, uint, str, array, map, no_elements, element,
  no_entries, entry, count_elements, count_entries,
}
use schemaless_benchmarks.Writer.{
  Writing, ◌>>◌, quiet, perform_all, null, boolean, real, signed, unsigned, text, begin_array,
  end_array, begin_map, key, end_map, events, element_events, entry_events, encode_all, bytes_all,
}
use schemaless_benchmarks.Writer.Laws.{
  Emits, Emits-nothing, Emits-append, Emits-one, Appends, perform_all-Appends,
}
use schemaless_benchmarks.Mpack.Write.{
  Call, write_nil, write_bool, write_double, write_i64, write_u64, write_str, start_array,
  finish_array, start_map, finish_map, write_object, write_elements, write_entries, run_test,
  encode,
}

module _ {W : Type 0} (perform : Call → Writing W) where
  mutual
    unfolding write_object events encode

    object-Emits : (o : Object) → Emits perform encode (write_object perform o) (events o)
    object-Emits nil = Emits-one perform encode null write_nil refl
    object-Emits (bool x) = Emits-one perform encode (boolean x) (write_bool x) refl
    object-Emits (double x) = Emits-one perform encode (real x) (write_double x) refl
    object-Emits (int x) = Emits-one perform encode (signed x) (write_i64 x) refl
    object-Emits (uint x) = Emits-one perform encode (unsigned x) (write_u64 x) refl
    object-Emits (str x) = Emits-one perform encode (text x) (write_str x) refl
    object-Emits (array xs) =
        Emits-append perform encode (perform (start_array (u32 (count_elements xs))))
          (write_elements perform xs >> perform finish_array)
          (begin_array (u32 (count_elements xs)) ∷ []) (element_events xs ++ end_array ∷ [])
          (Emits-one perform encode (begin_array (u32 (count_elements xs)))
            (start_array (u32 (count_elements xs))) refl)
          (Emits-append perform encode (write_elements perform xs) (perform finish_array)
            (element_events xs) (end_array ∷ []) (elements-Emits xs)
            (Emits-one perform encode end_array finish_array refl))
    object-Emits (map xs) =
        Emits-append perform encode (perform (start_map (u32 (count_entries xs))))
          (write_entries perform xs >> perform finish_map) (begin_map (u32 (count_entries xs)) ∷ [])
          (entry_events xs ++ end_map ∷ [])
          (Emits-one perform encode (begin_map (u32 (count_entries xs)))
            (start_map (u32 (count_entries xs))) refl)
          (Emits-append perform encode (write_entries perform xs) (perform finish_map)
            (entry_events xs) (end_map ∷ []) (entries-Emits xs)
            (Emits-one perform encode end_map finish_map refl))

    elements-Emits :
        (xs : Elements) → Emits perform encode (write_elements perform xs) (element_events xs)
    elements-Emits no_elements = Emits-nothing perform encode
    elements-Emits (element x xs) =
        Emits-append perform encode (write_object perform x) (write_elements perform xs) (events x)
          (element_events xs) (object-Emits x) (elements-Emits xs)

    entries-Emits :
        (xs : Entries) → Emits perform encode (write_entries perform xs) (entry_events xs)
    entries-Emits no_entries = Emits-nothing perform encode
    entries-Emits (entry x v xs) =
        Emits-append perform encode (perform (write_str x))
          (write_object perform v >> write_entries perform xs) (key x ∷ [])
          (events v ++ entry_events xs) (Emits-one perform encode (key x) (write_str x) refl)
          (Emits-append perform encode (write_object perform v) (write_entries perform xs)
            (events v) (entry_events xs) (object-Emits v) (entries-Emits xs))

  -- For every object and every behaviour of the library's calls, `write_object` makes exactly the calls for
  -- the object's events, in the order of the document, and ends at the first that fails.
  pub write_object-mpack :
      (o : Object) (w : W)
      → write_object perform o w ≡ perform_all perform (encode_all encode (events o)) w
  write_object-mpack o w = object-Emits o w

-- If every call succeeds and adds its bytes to the contents, and the library reports no error, `run_test` succeeds
-- with the hash of what the writer held at the start and the bytes for all the object's events after it.
pub run_test-mpack_write :
    {W : Type 0} (perform : Call → W → W) (is_ok : W → Bool) (contents : W → List ℕ)
    (bytes_of : Call → List ℕ) (start : W) (root_object : Object) (hash : ℕ)
    → Appends (quiet perform) contents bytes_of
    → ((w : W) → is_ok w ≡ true)
    → run_test perform is_ok contents start root_object hash ≡ (
      true,
      hash_str hash (contents start ++ bytes_all bytes_of (encode_all encode (events root_object))),
    )
unfolding run_test
run_test-mpack_write perform is_ok contents bytes_of start root_object hash adds fine =
    let (ok, grown) =
      perform_all-Appends (quiet perform) contents bytes_of adds
        (encode_all encode (events root_object)) start in
    rw (write_object-mpack (quiet perform) root_object start, fine _, grown) refl
