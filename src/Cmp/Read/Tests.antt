-- ===== src/Cmp/Read/Tests.antt =====
-- A format of two numbers for each header, and the string after it.
use schemaless_benchmarks.Base.{
  ℕ, ◌<◌, ◌≡◌, refl, arith, true, false, some, List, [], ◌∷◌, ◌++◌, length, ltb, lt→ltb,
  if◌then◌else◌, ◌==◌, pos, negsuc,
}
use schemaless_benchmarks.HashObject.{hash_object}
use schemaless_benchmarks.Object.{Object, no_elements, element, no_entries, entry}
use schemaless_benchmarks.Object.Fits.{Fits}
use schemaless_benchmarks.Object.Nesting.{nesting}
use schemaless_benchmarks.Buffer.{Buffer, buffer_init}
use schemaless_benchmarks.Writer.{Writing}
use schemaless_benchmarks.Cmp.Write.{
  Call, write_nil, write_bool, write_double, write_sint, write_uint, write_str, write_array,
  write_map, write_object,
}
use schemaless_benchmarks.Cmp.Read.{
  Reader, bits_64, bits_32, CmpObject, nil, boolean, double, unsigned, signed, str, array, map,
  other, Cmp, run_test,
}
use schemaless_benchmarks.Cmp.Read.Laws.{
  at, Delivers, Stands, of_nil, of_bool, of_double, of_uint, of_sint, of_pos, of_str, of_array,
  of_map, body, IsTyped,
}
use schemaless_benchmarks.Cmp.Read.Back.{run_test-write_object}

abbrev bytes_of : Call → List ℕ
bytes_of write_nil = 0 ∷ 0 ∷ []
bytes_of (write_bool false) = 1 ∷ 0 ∷ []
bytes_of (write_bool true) = 1 ∷ 1 ∷ []
bytes_of (write_double x) = 2 ∷ x ∷ []
bytes_of (write_uint x) = 3 ∷ x ∷ []
bytes_of (write_sint (pos x)) = 3 ∷ x ∷ []
bytes_of (write_sint (negsuc x)) = 4 ∷ x ∷ []
bytes_of (write_str s) = 5 ∷ length s ∷ s
bytes_of (write_array n) = 6 ∷ n ∷ []
bytes_of (write_map n) = 7 ∷ n ∷ []

abbrev decode : List ℕ → CmpObject
decode (t ∷ x ∷ []) =
    if t == 0
    then nil
    else if t == 1
    then boolean (x == 1)
    else if t == 2
    then double x
    else if t == 3
    then unsigned bits_64 x
    else if t == 4
    then signed bits_64 (negsuc x)
    else if t == 5
    then str bits_32 x
    else if t == 6
    then array bits_32 x
    else if t == 7
    then map bits_32 x
    else other
decode _ = other

abbrev argument : List ℕ → ℕ
argument (t ∷ x ∷ []) = x
argument _ = 0

abbrev cmp_init : Reader → Cmp
cmp_init reader = record {
  read_object = λ buffer. let (ok, header, after) = reader buffer 2 in (ok, decode header, after);
  read_str = λ size buffer.
      let (ok, header, after) = reader buffer 2 in
      if ltb (argument header) size then reader after (argument header) else (false, [], after);
}

objects :
    (reader : Reader)
    → Delivers reader
    → (c : Call) → IsTyped c
    → (rest behind : List ℕ)
    → (x : CmpObject) × ((cmp_init reader).read_object (at (bytes_of c ++ rest) behind)
        ≡ (true, x, at (body c ++ rest) behind))
      × Stands c x
objects reader gives write_nil typed rest behind =
    (nil, rw (gives (0 ∷ 0 ∷ []) rest behind) refl, of_nil)
objects reader gives (write_bool false) typed rest behind =
    (boolean false, rw (gives (1 ∷ 0 ∷ []) rest behind) refl, of_bool false)
objects reader gives (write_bool true) typed rest behind =
    (boolean true, rw (gives (1 ∷ 1 ∷ []) rest behind) refl, of_bool true)
objects reader gives (write_double x) typed rest behind =
    (double x, rw (gives (2 ∷ x ∷ []) rest behind) refl, of_double x)
objects reader gives (write_uint x) typed rest behind =
    (unsigned bits_64 x, rw (gives (3 ∷ x ∷ []) rest behind) refl, of_uint bits_64 x)
objects reader gives (write_sint (pos x)) typed rest behind =
    (unsigned bits_64 x, rw (gives (3 ∷ x ∷ []) rest behind) refl, of_pos bits_64 x)
objects reader gives (write_sint (negsuc x)) typed rest behind = (
  signed bits_64 (negsuc x),
  rw (gives (4 ∷ x ∷ []) rest behind) refl,
  of_sint bits_64 (negsuc x),
)
objects reader gives (write_str s) typed rest behind = (
  str bits_32 (length s),
  rw (gives (5 ∷ length s ∷ []) (s ++ rest) behind) refl,
  of_str bits_32 s,
)
objects reader gives (write_array n) typed rest behind =
    (array bits_32 n, rw (gives (6 ∷ n ∷ []) rest behind) refl, of_array bits_32 n)
objects reader gives (write_map n) typed rest behind =
    (map bits_32 n, rw (gives (7 ∷ n ∷ []) rest behind) refl, of_map bits_32 n)

strings :
    (reader : Reader)
    → Delivers reader
    → (s : List ℕ) → length s < 16
    → (rest behind : List ℕ)
    → (cmp_init reader).read_str 16 (at (bytes_of (write_str s) ++ rest) behind)
      ≡ (true, s, at rest behind)
strings reader gives s short rest behind =
    rw (gives (5 ∷ length s ∷ []) (s ++ rest) behind, lt→ltb (length s) 16 short)
      (gives s rest behind)

abbrev append_bytes : Call → Writing Buffer
append_bytes = λ c b. (true, record b { contents = b.contents ++ bytes_of c })

abbrev object : Object
object = Object.map (
    entry (b'k' ∷ [])
      (Object.array (element (Object.int (negsuc 6)) (element (Object.bool true) no_elements)))
      no_entries)

run_test-write_object_example :
    run_test
      (λ size. true)
      cmp_init
      3
      (write_object append_bytes object buffer_init).1.contents
      15373
    ≡ some (true, hash_object object 15373)
unfolding Fits nesting
run_test-write_object_example =
    run_test-write_object (λ size. true) cmp_init bytes_of append_bytes object 3 15373
      (record { objects = objects; strings = strings }) (λ c w. (refl, refl)) refl
      (omega arith, (omega arith, (omega arith, (omega arith, (tt, tt))), tt)) (omega arith)
