-- ===== src/Cmp/Read/Effect.antt =====
-- What `hash_element` of src/cmp/cmp-read.c does with the bytes of one call.
use schemaless_benchmarks.Base.{ℕ, suc, ◌≡◌, refl, sym, ap, List, [], ◌∷◌, ◌++◌, length}
use schemaless_benchmarks.Hash.{hash_u64, hash_i64, hash_nil, hash_bool, hash_double, hash_str}
use schemaless_benchmarks.HashObject.Laws.{hash_i64-pos}
use schemaless_benchmarks.Writer.{Event}
use schemaless_benchmarks.Cmp.Write.{
  Call, write_nil, write_bool, write_double, write_sint, write_uint, write_str, write_array,
  write_map, encode,
}
use schemaless_benchmarks.Cmp.Read
use schemaless_benchmarks.Cmp.Read.{
  Reader, buffer_cmp_reader, Width, CmpObject, Cmp, Outcome, hashed, failed, deep, Reading, next,
  hash_body, hash_count, loop_array, loop_map, switch, hash_element, finished, run_test,
}
use schemaless_benchmarks.Writer.Bytes.{one_call}
use schemaless_benchmarks.Cmp.Read.Laws.{
  at, buffer_cmp_reader-Delivers, taken, within, Stands, of_nil, of_bool, of_double, of_uint,
  of_sint, of_pos, of_str, of_array, of_map, body, IsTyped, ReadsBack, Consumes,
}

-- What `hash_element` does with the bytes of a call.
unfoldable pub effect : Cmp → Reading → Call → Reading
effect cmp recur write_nil buffer hash = hashed (hash_nil hash) buffer
effect cmp recur (write_bool x) buffer hash = hashed (hash_bool hash x) buffer
effect cmp recur (write_double x) buffer hash = hashed (hash_double hash x) buffer
effect cmp recur (write_uint x) buffer hash = hashed (hash_u64 hash x) buffer
effect cmp recur (write_sint x) buffer hash = hashed (hash_i64 hash x) buffer
effect cmp recur (write_str s) buffer hash = hash_body (length s) buffer hash
effect cmp recur (write_array n) buffer hash = next (loop_array recur n buffer hash) (hash_count n)
effect cmp recur (write_map n) buffer hash = next (loop_map cmp recur n buffer hash) (hash_count n)

switch-effect :
    (cmp : Cmp) (recur : Reading) (c : Call) (x : CmpObject)
    → Stands c x
    → (buffer : Read.Buffer) (hash : ℕ)
    → switch cmp recur x buffer hash ≡ effect cmp recur c buffer hash
unfolding switch effect
switch-effect cmp recur _ _ of_nil buffer hash = refl
switch-effect cmp recur _ _ (of_bool x) buffer hash = refl
switch-effect cmp recur _ _ (of_double x) buffer hash = refl
switch-effect cmp recur _ _ (of_uint width x) buffer hash = refl
switch-effect cmp recur _ _ (of_sint width x) buffer hash = refl
switch-effect cmp recur _ _ (of_pos width x) buffer hash =
    ap (λ h. hashed h buffer) (sym (hash_i64-pos hash x))
switch-effect cmp recur _ _ (of_str width s) buffer hash = refl
switch-effect cmp recur _ _ (of_array width n) buffer hash = refl
switch-effect cmp recur _ _ (of_map width n) buffer hash = refl

module _ (cmp_init : Reader → Cmp) (bytes_of : Call → List ℕ)
    (back : ReadsBack cmp_init bytes_of) where
  -- cmp with the reader of the benchmark.
  abbrev pub cmp : Cmp
  cmp = cmp_init buffer_cmp_reader

  pub element-effect :
      (c : Call) (fuel : ℕ) (rest behind : List ℕ) (hash : ℕ)
      → IsTyped c
      → hash_element cmp (suc fuel) (at (bytes_of c ++ rest) behind) hash
        ≡ effect cmp (hash_element cmp fuel) c (at (body c ++ rest) behind) hash
  unfolding hash_element
  element-effect c fuel rest behind hash typed =
      let (x, read, stands) =
        back.objects buffer_cmp_reader buffer_cmp_reader-Delivers c typed rest behind in
      rw read
        (switch-effect cmp (hash_element cmp fuel) c x stands (at (body c ++ rest) behind) hash)

  pub scalar-Consumes :
      (e : Event) (c : Call) (fuel : ℕ) (f : ℕ → ℕ)
      → encode e ≡ c ∷ []
      → IsTyped c
      → ((buffer : Read.Buffer) (hash : ℕ)
          → effect cmp (hash_element cmp fuel) c buffer hash ≡ hashed (f hash) buffer)
      → body c ≡ []
      → Consumes bytes_of (hash_element cmp (suc fuel)) (e ∷ []) f
  scalar-Consumes e c fuel f only typed does empty rest behind hash =
      rw
        (
          one_call encode bytes_of e c rest only,
          element-effect c fuel rest behind hash typed,
          empty,
        )
        (does (at rest behind) hash)

  pub body-Consumes :
      (s : List ℕ) (rest behind : List ℕ) (hash : ℕ)
      → hash_body (length s) (at (s ++ rest) behind) hash
        ≡ hashed (hash_str hash s) (at rest behind)
  unfolding hash_body
  body-Consumes s rest behind hash =
      let (first, second) = taken s rest behind in rw (within s rest, first, second) refl
