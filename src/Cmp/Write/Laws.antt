-- ===== src/Cmp/Write/Laws.antt =====
-- src/cmp/cmp-write.c against the events of the object.
use schemaless_benchmarks.Base.{ℕ, ◌≡◌, refl, true, List, [], ◌∷◌, ◌++◌, u32}
use schemaless_benchmarks.Hash.{hash_str}
use schemaless_benchmarks.Buffer.{Buffer, Realloc, buffer_init}
use schemaless_benchmarks.Object.{
  Object, Elements, Entries, nil, bool, double, int, uint, str, array, map, no_elements, element,
  no_entries, entry, count_elements, count_entries,
}
use schemaless_benchmarks.Writer.{
  Writing, ◌>>◌, perform_all, null, boolean, real, signed, unsigned, text, begin_array, end_array,
  begin_map, key, end_map, events, element_events, entry_events, encode_all, bytes_all,
}
use schemaless_benchmarks.Writer.Laws.{
  Emits, Emits-nothing, Emits-append, Emits-one, Emits-silent, Appends, perform_all-Appends,
}
use schemaless_benchmarks.Cmp.Write.{
  Call, write_nil, write_bool, write_double, write_sint, write_uint, write_str, write_array,
  write_map, Writer, buffer_cmp_writer, write_object, write_elements, write_entries, run_test,
  encode,
}

module _ {W : Type 0} (perform : Call → Writing W) where
  mutual
    unfolding write_object events encode

    object-Emits : (o : Object) → Emits perform encode (write_object perform o) (events o)
    object-Emits nil = Emits-one perform encode null write_nil refl
    object-Emits (bool x) = Emits-one perform encode (boolean x) (write_bool x) refl
    object-Emits (double x) = Emits-one perform encode (real x) (write_double x) refl
    object-Emits (int x) = Emits-one perform encode (signed x) (write_sint x) refl
    object-Emits (uint x) = Emits-one perform encode (unsigned x) (write_uint x) refl
    object-Emits (str x) = Emits-one perform encode (text x) (write_str x) refl
    object-Emits (array xs) =
        Emits-append perform encode (perform (write_array (u32 (count_elements xs))))
          (write_elements perform xs) (begin_array (u32 (count_elements xs)) ∷ [])
          (element_events xs ++ end_array ∷ [])
          (Emits-one perform encode (begin_array (u32 (count_elements xs)))
            (write_array (u32 (count_elements xs))) refl)
          (Emits-silent perform encode (write_elements perform xs) (element_events xs) end_array
            refl (elements-Emits xs))
    object-Emits (map xs) =
        Emits-append perform encode (perform (write_map (u32 (count_entries xs))))
          (write_entries perform xs) (begin_map (u32 (count_entries xs)) ∷ [])
          (entry_events xs ++ end_map ∷ [])
          (Emits-one perform encode (begin_map (u32 (count_entries xs)))
            (write_map (u32 (count_entries xs))) refl)
          (Emits-silent perform encode (write_entries perform xs) (entry_events xs) end_map refl
            (entries-Emits xs))

    elements-Emits :
        (xs : Elements) → Emits perform encode (write_elements perform xs) (element_events xs)
    elements-Emits no_elements = Emits-nothing perform encode
    elements-Emits (element x xs) =
        Emits-append perform encode (write_object perform x) (write_elements perform xs) (events x)
          (element_events xs) (object-Emits x) (elements-Emits xs)

    entries-Emits :
        (xs : Entries) → Emits perform encode (write_entries perform xs) (entry_events xs)
    entries-Emits no_entries = Emits-nothing perform encode
    entries-Emits (entry x v xs) =
        Emits-append perform encode (perform (write_str x))
          (write_object perform v >> write_entries perform xs) (key x ∷ [])
          (events v ++ entry_events xs) (Emits-one perform encode (key x) (write_str x) refl)
          (Emits-append perform encode (write_object perform v) (write_entries perform xs)
            (events v) (entry_events xs) (object-Emits v) (entries-Emits xs))

  -- For every object and every behaviour of the library's calls, `write_object` makes exactly the calls for
  -- the object's events, in the order of the document, and ends at the first that fails.
  pub write_object-cmp :
      (o : Object) (w : W)
      → write_object perform o w ≡ perform_all perform (encode_all encode (events o)) w
  write_object-cmp o w = object-Emits o w

-- If every call of cmp succeeds and adds its bytes to the buffer, `run_test` succeeds with the hash of
-- the bytes for all the object's events.
pub run_test-cmp_write :
    (cmp_init : Writer → Call → Writing Buffer) (realloc : Realloc) (bytes_of : Call → List ℕ)
    (root_object : Object) (hash : ℕ)
    → Appends (cmp_init (buffer_cmp_writer realloc)) (λ buffer. buffer.contents) bytes_of
    → run_test cmp_init realloc root_object hash
      ≡ (true, hash_str hash (bytes_all bytes_of (encode_all encode (events root_object))))
unfolding run_test buffer_init
run_test-cmp_write cmp_init realloc bytes_of root_object hash adds =
    let perform = cmp_init (buffer_cmp_writer realloc) in
    let (ok, grown) =
      perform_all-Appends perform (λ buffer. buffer.contents) bytes_of adds
        (encode_all encode (events root_object)) buffer_init in
    rw (write_object-cmp perform root_object buffer_init, ok, grown) refl
