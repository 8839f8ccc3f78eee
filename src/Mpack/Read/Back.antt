-- ===== src/Mpack/Read/Back.antt =====
-- src/mpack/mpack-read.c on the bytes that src/mpack/mpack-write.c writes.
use mathlib.Core.List.{append-nil}
use schemaless_benchmarks.Base.{
  ℕ, zero, suc, ◌+◌, ◌^◌, ◌<◌, ◌≡◌, refl, sym, arith, true, some, List, [], ◌∷◌, ◌++◌, length, u32,
}
use schemaless_benchmarks.Hash.{
  hash_u32, hash_u64, hash_i64, hash_nil, hash_bool, hash_double, hash_str,
}
use schemaless_benchmarks.HashObject.{hash_object, hash_elements, hash_entries}
use schemaless_benchmarks.Object.{
  Object, Elements, Entries, no_elements, element, no_entries, entry, count_elements, count_entries,
}
use schemaless_benchmarks.Object.Fits.{Fits, FitsElements, FitsEntries}
use schemaless_benchmarks.Object.Nesting.{nesting, nesting_elements, nesting_entries}
use schemaless_benchmarks.Benchmark.{Malloc}
use schemaless_benchmarks.Benchmark.Copy.{benchmark_in_situ_copy-some}
use schemaless_benchmarks.Writer.{
  quiet, null, boolean, real, signed, unsigned, text, begin_array, end_array, begin_map, key,
  end_map, events, element_events, entry_events, encode_all, bytes_all,
}
use schemaless_benchmarks.Writer.Bytes.{bytes, bytes-append, one_call, compound}
use schemaless_benchmarks.Writer.Laws.{Appends, perform_all-Appends}
use schemaless_benchmarks.Mpack.Write.{
  Call, write_nil, write_bool, write_double, write_i64, write_u64, write_str, start_array,
  start_map, encode, write_object,
}
use schemaless_benchmarks.Mpack.Write.Laws.{write_object-mpack}
use schemaless_benchmarks.Mpack.Read.{
  Mpack, go_on, next, returned, check, hash_body, loop_array, loop_map, hash_element, finished,
  run_test,
}
use schemaless_benchmarks.Mpack.Read.Laws.{
  ReadsBack, Goes, next-Goes, returned-Goes, check-Goes, body-Goes,
}
use schemaless_benchmarks.Mpack.Read.Effect.{effect, Consumes, element-Goes, scalar-Consumes}

module _ {R : Type 0} (mpack : Mpack R) (bytes_of : Call → List ℕ) (Holds : R → List ℕ → Type 0)
    (back : ReadsBack mpack bytes_of Holds) where
  mutual
    unfolding hash_object events encode Fits nesting loop_array loop_map effect bytes_all encode_all

    object-Consumes :
        (o : Object) (fuel : ℕ)
        → Fits (2 ^ 32) o
        → nesting o < suc fuel
        → Consumes mpack bytes_of Holds back
            (hash_element mpack (suc fuel))
            (events o)
            (hash_object o)
    object-Consumes Object.nil fuel fits p =
        scalar-Consumes mpack bytes_of Holds back null write_nil fuel hash_nil refl tt refl
          (λ r h. refl)
    object-Consumes (Object.bool x) fuel fits p =
        scalar-Consumes mpack bytes_of Holds back (boolean x) (write_bool x) fuel
          (λ h. hash_bool h x) refl tt refl (λ r h. refl)
    object-Consumes (Object.double x) fuel fits p =
        scalar-Consumes mpack bytes_of Holds back (real x) (write_double x) fuel
          (λ h. hash_double h x) refl tt refl (λ r h. refl)
    object-Consumes (Object.int x) fuel fits p =
        scalar-Consumes mpack bytes_of Holds back (signed x) (write_i64 x) fuel (λ h. hash_i64 h x)
          refl fits refl (λ r h. refl)
    object-Consumes (Object.uint x) fuel fits p =
        scalar-Consumes mpack bytes_of Holds back (unsigned x) (write_u64 x) fuel
          (λ h. hash_u64 h x) refl fits refl (λ r h. refl)
    object-Consumes (Object.str s) fuel fits p = λ reader rest hash holds.
        element-Goes mpack bytes_of Holds back (write_str s) fuel reader rest rest hash
          (hash_str hash s) fits
          (rw (one_call encode bytes_of (text s) (write_str s) rest refl) at holds)
          (λ r held. body-Goes mpack bytes_of Holds back s r hash rest held)
    object-Consumes (Object.array xs) fuel fits p = λ reader rest hash holds.
        let n = u32 (count_elements xs) in
        let exact : count_elements xs ≡ u32 (count_elements xs) = omega (arith, fits.0) in
        let inner = bytes encode bytes_of (element_events xs) ++ rest in
        let closes : bytes encode bytes_of (end_array ∷ []) ≡ [] = rw (back.array_closed) refl in
        element-Goes mpack bytes_of Holds back (start_array n) fuel reader inner rest hash
          (hash_u32 (hash_elements xs hash) n) (omega arith)
          (rw
            (compound encode bytes_of (begin_array n) end_array (start_array n) (element_events xs)
              rest refl closes)
            at holds)
          (λ r held.
            next-Goes Holds (loop_array mpack (hash_element mpack fuel) n r hash)
              (λ r' h. go_on (hash_u32 h n) (mpack.done_array r')) (hash_elements xs hash)
              (hash_u32 (hash_elements xs hash) n) rest rest
              (rw (sym exact) (elements-Consumes xs fuel fits.1 (omega arith) r rest hash held))
              (λ r' held'. (mpack.done_array r', refl, back.after_array r' rest held')))
    object-Consumes (Object.map es) fuel fits p = λ reader rest hash holds.
        let n = u32 (count_entries es) in
        let exact : count_entries es ≡ u32 (count_entries es) = omega (arith, fits.0) in
        let inner = bytes encode bytes_of (entry_events es) ++ rest in
        let closes : bytes encode bytes_of (end_map ∷ []) ≡ [] = rw (back.map_closed) refl in
        element-Goes mpack bytes_of Holds back (start_map n) fuel reader inner rest hash
          (hash_u32 (hash_entries es hash) n) (omega arith)
          (rw
            (compound encode bytes_of (begin_map n) end_map (start_map n) (entry_events es) rest
              refl closes)
            at holds)
          (λ r held.
            next-Goes Holds (loop_map mpack (hash_element mpack fuel) n r hash)
              (λ r' h. go_on (hash_u32 h n) (mpack.done_map r')) (hash_entries es hash)
              (hash_u32 (hash_entries es hash) n) rest rest
              (rw (sym exact) (entries-Consumes es fuel fits.1 (omega arith) r rest hash held))
              (λ r' held'. (mpack.done_map r', refl, back.after_map r' rest held')))

    elements-Consumes :
        (xs : Elements) (fuel : ℕ)
        → FitsElements (2 ^ 32) xs
        → nesting_elements xs < fuel
        → Consumes mpack bytes_of Holds back
            (loop_array mpack (hash_element mpack fuel) (count_elements xs))
            (element_events xs)
            (hash_elements xs)
    elements-Consumes xs zero fits p = absurd (omega arith)
    elements-Consumes no_elements (suc fuel) fits p =
        λ reader rest hash holds. (reader, refl, holds)
    elements-Consumes (element x xs) (suc fuel) fits p = λ reader rest hash holds.
        let recur = hash_element mpack (suc fuel) in
        let middle = bytes encode bytes_of (element_events xs) ++ rest in
        let first =
          object-Consumes x fuel fits.0 (omega arith) reader middle hash
            (rw (bytes-append encode bytes_of (events x) (element_events xs) rest) at holds) in
        next-Goes Holds (next (returned (recur reader hash)) (check mpack))
          (loop_array mpack recur (count_elements xs)) (hash_object x hash)
          (hash_elements xs (hash_object x hash)) middle rest
          (next-Goes Holds (returned (recur reader hash)) (check mpack) (hash_object x hash)
            (hash_object x hash) middle middle
            (returned-Goes Holds (recur reader hash) (hash_object x hash) middle first)
            (λ r held. check-Goes mpack bytes_of Holds back r (hash_object x hash) middle held))
          (λ r held.
            elements-Consumes xs (suc fuel) fits.1 (omega arith) r rest (hash_object x hash) held)

    entries-Consumes :
        (es : Entries) (fuel : ℕ)
        → FitsEntries (2 ^ 32) es
        → nesting_entries es < fuel
        → Consumes mpack bytes_of Holds back
            (loop_map mpack (hash_element mpack fuel) (count_entries es))
            (entry_events es)
            (hash_entries es)
    entries-Consumes es zero fits p = absurd (omega arith)
    entries-Consumes no_entries (suc fuel) fits p = λ reader rest hash holds. (reader, refl, holds)
    entries-Consumes (entry k x es) (suc fuel) fits p = λ reader rest hash holds.
        let recur = hash_element mpack (suc fuel) in
        let middle = bytes encode bytes_of (entry_events es) ++ rest in
        let inner = bytes encode bytes_of (events x) ++ middle in
        let keyed =
          rw
            (
              bytes-append encode bytes_of (key k ∷ []) (events x ++ entry_events es) rest,
              one_call encode bytes_of (key k) (write_str k)
                  (bytes encode bytes_of (events x ++ entry_events es) ++ rest) refl,
              bytes-append encode bytes_of (events x) (entry_events es) rest,
            )
            at holds in
        let (len, held) = back.lengths reader k inner fits.0 keyed in
        let reader' = (mpack.expect_str reader).1 in
        let named : Goes Holds (hash_body mpack (mpack.expect_str reader).0 reader' hash)
            (hash_str hash k) inner =
          rw len (body-Goes mpack bytes_of Holds back k reader' hash inner held) in
        next-Goes Holds
          (next (hash_body mpack (mpack.expect_str reader).0 reader' hash)
            (λ r h. returned (recur r h)))
          (loop_map mpack recur (count_entries es)) (hash_object x (hash_str hash k))
          (hash_entries es (hash_object x (hash_str hash k))) middle rest
          (next-Goes Holds (hash_body mpack (mpack.expect_str reader).0 reader' hash)
            (λ r h. returned (recur r h)) (hash_str hash k) (hash_object x (hash_str hash k)) inner
            middle named
            (λ r held'.
              returned-Goes Holds (recur r (hash_str hash k)) (hash_object x (hash_str hash k))
                middle
                (object-Consumes x fuel fits.1 (omega arith) r middle (hash_str hash k) held')))
          (λ r held'.
            entries-Consumes es (suc fuel) fits.2 (omega arith) r rest
              (hash_object x (hash_str hash k)) held')

-- What the writer's calls put into an empty writer for an object, the test of the reader hashes to that object's
-- reference hash. This holds if every call adds its bytes, the reader reads back what was written, the copy can be
-- allocated, the object's numbers and sizes fit the format, and the fuel is above its nesting.
pub mpack_read-write_object :
    {R W : Type 0} (malloc : Malloc) (mpack : Mpack R) (bytes_of : Call → List ℕ)
    (Holds : R → List ℕ → Type 0) (perform : Call → W → W) (contents : W → List ℕ) (start : W)
    (root_object : Object) (fuel hash : ℕ)
    → ReadsBack mpack bytes_of Holds
    → Appends (quiet perform) contents bytes_of
    → contents start ≡ []
    → malloc (length (contents (write_object (quiet perform) root_object start).1) + 1) ≡ true
    → Fits (2 ^ 32) root_object
    → nesting root_object < fuel
    → run_test mpack malloc fuel (contents (write_object (quiet perform) root_object start).1) hash
      ≡ some (true, hash_object root_object hash)
unfolding run_test finished
mpack_read-write_object malloc mpack bytes_of Holds perform contents start root_object zero hash
      back adds empty given fits p =
    absurd (omega arith)
mpack_read-write_object malloc mpack bytes_of Holds perform contents start root_object (suc fuel)
      hash back adds empty given fits p =
    let code = bytes encode bytes_of (events root_object) in
    let file = contents (write_object (quiet perform) root_object start).1 in
    let (ok, grown) =
      perform_all-Appends (quiet perform) contents bytes_of adds
        (encode_all encode (events root_object)) start in
    let written : file ≡ code =
      rw (write_object-mpack (quiet perform) root_object start, grown, empty) refl in
    let whole : code ++ [] ≡ code = append-nil code in
    let holds : Holds (mpack.init_data (code ++ 0 ∷ []) (length code)) (code ++ []) =
      rw whole (back.starts code (0 ∷ [])) in
    let (reader, read, held) =
      object-Consumes mpack bytes_of Holds back root_object fuel fits p
        (mpack.init_data (code ++ 0 ∷ []) (length code)) [] hash holds in
    rw
      (
        run_test,
        benchmark_in_situ_copy-some malloc file given,
        written,
        read,
        finished,
        back.ends reader [] held,
      )
      refl
