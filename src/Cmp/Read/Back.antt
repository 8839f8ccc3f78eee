-- ===== src/Cmp/Read/Back.antt =====
-- src/cmp/cmp-read.c on the bytes that src/cmp/cmp-write.c writes.
use mathlib.Core.List.{append-nil}
use schemaless_benchmarks.Base.{
  ℕ, zero, suc, ◌+◌, ◌<◌, ◌≡◌, refl, arith, true, some, List, [], ◌∷◌, ◌++◌, length, u32,
}
use schemaless_benchmarks.Hash.{hash_u64, hash_i64, hash_nil, hash_bool, hash_double, hash_str}
use schemaless_benchmarks.HashObject.{hash_object, hash_elements, hash_entries}
use schemaless_benchmarks.Object.{
  Object, Elements, Entries, no_elements, element, no_entries, entry, count_elements, count_entries,
}
use schemaless_benchmarks.Object.Nesting.{nesting, nesting_elements, nesting_entries}
use schemaless_benchmarks.Benchmark.{Malloc}
use schemaless_benchmarks.Benchmark.Copy.{benchmark_in_situ_copy-some}
use schemaless_benchmarks.Buffer.{Buffer, buffer_init}
use schemaless_benchmarks.Writer.{
  Writing, null, boolean, real, signed, unsigned, text, begin_array, end_array, begin_map, key,
  end_map, events, element_events, entry_events, encode_all, bytes_all,
}
use schemaless_benchmarks.Writer.Laws.{Appends, perform_all-Appends}
use schemaless_benchmarks.Cmp.Write.{
  Call, write_nil, write_bool, write_double, write_sint, write_uint, write_str, write_array,
  write_map, encode, write_object,
}
use schemaless_benchmarks.Cmp.Write.Laws.{write_object-cmp}
use schemaless_benchmarks.Cmp.Read.{
  Reader, buffer_cmp_reader, Cmp, loop_array, loop_map, hash_element, run_test,
}
use schemaless_benchmarks.Writer.Bytes.{bytes, bytes-append, one_call, compound}
use schemaless_benchmarks.Object.Fits.{Fits, FitsElements, FitsEntries}
use schemaless_benchmarks.Cmp.Read.Laws.{
  buffer_cmp_reader-Delivers, ReadsBack, Consumes, Consumes-next,
}
use schemaless_benchmarks.Cmp.Read.Effect.{effect, element-effect, scalar-Consumes, body-Consumes}

module _ (cmp_init : Reader → Cmp) (bytes_of : Call → List ℕ)
    (back : ReadsBack cmp_init bytes_of) where
  mutual
    unfolding hash_object events encode Fits nesting loop_array loop_map effect bytes_all encode_all

    object-Consumes :
        (o : Object) (fuel : ℕ)
        → Fits 16 o
        → nesting o < suc fuel
        → Consumes bytes_of
            (hash_element (cmp_init buffer_cmp_reader) (suc fuel))
            (events o)
            (hash_object o)
    object-Consumes Object.nil fuel fits p =
        scalar-Consumes cmp_init bytes_of back null write_nil fuel hash_nil refl tt (λ b h. refl)
          refl
    object-Consumes (Object.bool x) fuel fits p =
        scalar-Consumes cmp_init bytes_of back (boolean x) (write_bool x) fuel (λ h. hash_bool h x)
          refl tt (λ b h. refl) refl
    object-Consumes (Object.double x) fuel fits p =
        scalar-Consumes cmp_init bytes_of back (real x) (write_double x) fuel (λ h. hash_double h x)
          refl tt (λ b h. refl) refl
    object-Consumes (Object.int x) fuel fits p =
        scalar-Consumes cmp_init bytes_of back (signed x) (write_sint x) fuel (λ h. hash_i64 h x)
          refl fits (λ b h. refl) refl
    object-Consumes (Object.uint x) fuel fits p =
        scalar-Consumes cmp_init bytes_of back (unsigned x) (write_uint x) fuel (λ h. hash_u64 h x)
          refl fits (λ b h. refl) refl
    object-Consumes (Object.str s) fuel fits p = λ rest behind hash.
        rw
          (
            one_call encode bytes_of (text s) (write_str s) rest refl,
            element-effect cmp_init bytes_of back (write_str s) fuel rest behind hash fits,
          )
          (body-Consumes cmp_init bytes_of back s rest behind hash)
    object-Consumes (Object.array xs) fuel fits p = λ rest behind hash.
        let n = u32 (count_elements xs) in
        let exact : u32 (count_elements xs) ≡ count_elements xs = omega (arith, fits.0) in
        let inside = elements-Consumes xs fuel fits.1 (omega arith) rest behind hash in
        rw
          (
            compound encode bytes_of (begin_array n) end_array (write_array n) (element_events xs)
                rest refl refl,
            element-effect cmp_init bytes_of back (write_array n) fuel
                (bytes encode bytes_of (element_events xs) ++ rest) behind hash (omega arith),
            exact,
            inside,
          )
          refl
    object-Consumes (Object.map es) fuel fits p = λ rest behind hash.
        let n = u32 (count_entries es) in
        let exact : u32 (count_entries es) ≡ count_entries es = omega (arith, fits.0) in
        let inside = entries-Consumes es fuel fits.1 (omega arith) rest behind hash in
        rw
          (
            compound encode bytes_of (begin_map n) end_map (write_map n) (entry_events es) rest refl
                refl,
            element-effect cmp_init bytes_of back (write_map n) fuel
                (bytes encode bytes_of (entry_events es) ++ rest) behind hash (omega arith),
            exact,
            inside,
          )
          refl

    elements-Consumes :
        (xs : Elements) (fuel : ℕ)
        → FitsElements 16 xs
        → nesting_elements xs < fuel
        → Consumes bytes_of
            (loop_array (hash_element (cmp_init buffer_cmp_reader) fuel) (count_elements xs))
            (element_events xs)
            (hash_elements xs)
    elements-Consumes xs zero fits p = absurd (omega arith)
    elements-Consumes no_elements (suc fuel) fits p = λ rest behind hash. refl
    elements-Consumes (element x xs) (suc fuel) fits p =
        Consumes-next bytes_of (hash_element (cmp_init buffer_cmp_reader) (suc fuel))
          (loop_array (hash_element (cmp_init buffer_cmp_reader) (suc fuel)) (count_elements xs))
          (events x) (element_events xs) (hash_object x) (hash_elements xs)
          (object-Consumes x fuel fits.0 (omega arith))
          (elements-Consumes xs (suc fuel) fits.1 (omega arith))

    entries-Consumes :
        (es : Entries) (fuel : ℕ)
        → FitsEntries 16 es
        → nesting_entries es < fuel
        → Consumes bytes_of
            (loop_map
              (cmp_init buffer_cmp_reader)
              (hash_element (cmp_init buffer_cmp_reader) fuel)
              (count_entries es))
            (entry_events es)
            (hash_entries es)
    entries-Consumes es zero fits p = absurd (omega arith)
    entries-Consumes no_entries (suc fuel) fits p = λ rest behind hash. refl
    entries-Consumes (entry k x es) (suc fuel) fits p = λ rest behind hash.
        let es' = events x ++ entry_events es in
        let found =
          back.strings buffer_cmp_reader buffer_cmp_reader-Delivers k fits.0
            (bytes encode bytes_of es' ++ rest) behind in
        let others =
          Consumes-next bytes_of (hash_element (cmp_init buffer_cmp_reader) (suc fuel))
            (loop_map (cmp_init buffer_cmp_reader)
              (hash_element (cmp_init buffer_cmp_reader) (suc fuel)) (count_entries es))
            (events x) (entry_events es) (hash_object x) (hash_entries es)
            (object-Consumes x fuel fits.1 (omega arith))
            (entries-Consumes es (suc fuel) fits.2 (omega arith)) rest behind (hash_str hash k) in
        rw
          (
            bytes-append encode bytes_of (key k ∷ []) es' rest,
            one_call encode bytes_of (key k) (write_str k) (bytes encode bytes_of es' ++ rest) refl,
            found,
          )
          others

-- What the test of cmp's writer puts into its buffer for an object, the test of cmp's reader hashes to that
-- object's reference hash. This holds if every writing call succeeds and adds its bytes to the buffer, cmp reads
-- back what it wrote, the copy can be allocated, the object's numbers and sizes fit the
-- format and its keys are shorter than 16 bytes, and the fuel is above its nesting.
pub run_test-write_object :
    (malloc : Malloc) (cmp_init : Reader → Cmp) (bytes_of : Call → List ℕ)
    (perform : Call → Writing Buffer) (root_object : Object) (fuel hash : ℕ)
    → ReadsBack cmp_init bytes_of
    → Appends perform (λ buffer. buffer.contents) bytes_of
    → malloc (length (write_object perform root_object buffer_init).1.contents + 1) ≡ true
    → Fits 16 root_object
    → nesting root_object < fuel
    → run_test malloc cmp_init fuel (write_object perform root_object buffer_init).1.contents hash
      ≡ some (true, hash_object root_object hash)
unfolding run_test buffer_init
run_test-write_object malloc cmp_init bytes_of perform root_object zero hash back adds given fits
      p =
    absurd (omega arith)
run_test-write_object malloc cmp_init bytes_of perform root_object (suc fuel) hash back adds given
      fits p =
    let code = bytes encode bytes_of (events root_object) in
    let (ok, grown) =
      perform_all-Appends perform (λ buffer. buffer.contents) bytes_of adds
        (encode_all encode (events root_object)) buffer_init in
    let written : (write_object perform root_object buffer_init).1.contents ≡ code =
      rw (write_object-cmp perform root_object buffer_init) grown in
    let read = object-Consumes cmp_init bytes_of back root_object fuel fits p [] (0 ∷ []) hash in
    let whole : code ++ [] ≡ code = append-nil code in
    let exact = rw (whole) at read in
    rw
      (
        run_test,
        benchmark_in_situ_copy-some malloc (write_object perform root_object buffer_init).1.contents
            given,
        written,
        exact,
      )
      refl
