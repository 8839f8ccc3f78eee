-- ===== src/Mpack/Read/Effect.antt =====
-- What `hash_element` of src/mpack/mpack-read.c does with the bytes of one call.
use schemaless_benchmarks.Base.{ℕ, suc, ◌≡◌, refl, sym, ap, List, [], ◌∷◌, ◌++◌, length}
use schemaless_benchmarks.Hash.{hash_u32, hash_u64, hash_i64, hash_nil, hash_bool, hash_double}
use schemaless_benchmarks.HashObject.Laws.{hash_i64-pos}
use schemaless_benchmarks.Writer.{Event}
use schemaless_benchmarks.Writer.Bytes.{bytes, one_call}
use schemaless_benchmarks.Mpack.Write.{
  Call, write_nil, write_bool, write_double, write_i64, write_u64, write_str, start_array,
  finish_array, start_map, finish_map, encode,
}
use schemaless_benchmarks.Mpack.Read.{
  Tag, Mpack, go_on, deep, Part, next, hash_body, loop_array, loop_map, switch, hash_element,
}
use schemaless_benchmarks.Mpack.Read.Laws.{
  Stands, of_nil, of_bool, of_double, of_u64, of_i64, of_pos, of_str, of_array, of_map, body,
  IsTyped, ReadsBack, Goes,
}

-- What `hash_element` does with the bytes of a call that begins a value.
unfoldable pub effect : {R : Type 0} → Mpack R → Part R → Call → Part R
effect mpack recur write_nil reader hash = go_on (hash_nil hash) reader
effect mpack recur (write_bool x) reader hash = go_on (hash_bool hash x) reader
effect mpack recur (write_double x) reader hash = go_on (hash_double hash x) reader
effect mpack recur (write_u64 x) reader hash = go_on (hash_u64 hash x) reader
effect mpack recur (write_i64 x) reader hash = go_on (hash_i64 hash x) reader
effect mpack recur (write_str s) reader hash = hash_body mpack (length s) reader hash
effect mpack recur (start_array n) reader hash =
    next (loop_array mpack recur n reader hash) (λ r h. go_on (hash_u32 h n) (mpack.done_array r))
effect mpack recur (start_map n) reader hash =
    next (loop_map mpack recur n reader hash) (λ r h. go_on (hash_u32 h n) (mpack.done_map r))
effect mpack recur finish_array reader hash = deep
effect mpack recur finish_map reader hash = deep

switch-effect :
    {R : Type 0} (mpack : Mpack R) (recur : Part R) (c : Call) (x : Tag)
    → Stands c x
    → (reader : R) (hash : ℕ) → switch mpack recur x reader hash ≡ effect mpack recur c reader hash
unfolding switch effect
switch-effect mpack recur _ _ of_nil reader hash = refl
switch-effect mpack recur _ _ (of_bool x) reader hash = refl
switch-effect mpack recur _ _ (of_double x) reader hash = refl
switch-effect mpack recur _ _ (of_u64 x) reader hash = refl
switch-effect mpack recur _ _ (of_i64 x) reader hash = refl
switch-effect mpack recur _ _ (of_pos x) reader hash =
    ap (λ h. go_on h reader) (sym (hash_i64-pos hash x))
switch-effect mpack recur _ _ (of_str s) reader hash = refl
switch-effect mpack recur _ _ (of_array n) reader hash = refl
switch-effect mpack recur _ _ (of_map n) reader hash = refl

module _ {R : Type 0} (mpack : Mpack R) (bytes_of : Call → List ℕ) (Holds : R → List ℕ → Type 0)
    (back : ReadsBack mpack bytes_of Holds) where
  -- From a reader that holds the bytes and others, a part goes on with the hash changed by `f` and a reader that
  -- holds the others.
  abbrev pub Consumes : Part R → List Event → (ℕ → ℕ) → Type 0
  Consumes part es f =
      (reader : R) (rest : List ℕ) (hash : ℕ)
      → Holds reader (bytes encode bytes_of es ++ rest)
      → Goes Holds (part reader hash) (f hash) rest

  -- A call's effect on the reader after its tag.
  pub element-Goes :
      (c : Call) (fuel : ℕ) (reader : R) (unread rest : List ℕ) (hash hash' : ℕ)
      → IsTyped c
      → Holds reader (bytes_of c ++ unread)
      → ((r : R)
          → Holds r (body c ++ unread)
          → Goes Holds (effect mpack (hash_element mpack fuel) c r hash) hash' rest)
      → Goes Holds (hash_element mpack (suc fuel) reader hash) hash' rest
  unfolding hash_element
  element-Goes c fuel reader unread rest hash hash' typed holds follows =
      let (stands, held) = back.tags reader c unread typed holds in
      let same =
        switch-effect mpack (hash_element mpack fuel) c (mpack.read_tag reader).0 stands
          (mpack.read_tag reader).1 hash in
      rw same (follows (mpack.read_tag reader).1 held)

  pub scalar-Consumes :
      (e : Event) (c : Call) (fuel : ℕ) (f : ℕ → ℕ)
      → encode e ≡ c ∷ []
      → IsTyped c
      → body c ≡ []
      → ((r : R) (h : ℕ) → effect mpack (hash_element mpack fuel) c r h ≡ go_on (f h) r)
      → Consumes (hash_element mpack (suc fuel)) (e ∷ []) f
  scalar-Consumes e c fuel f only typed empty does reader rest hash holds =
      element-Goes c fuel reader rest rest hash (f hash) typed
        (rw (one_call encode bytes_of e c rest only) at holds)
        (λ r held. (r, does r hash, rw empty at held))
