-- ===== src/Mpack/Read/Samples.antt =====
-- A reader of bytes that the calls of a writer put one after the other.
use schemaless_benchmarks.Base.{
  ℕ, ◌≡◌, refl, arith, true, false, List, [], ◌∷◌, ◌++◌, length, take, drop, ◌^◌,
  take-length-append, drop-length-append, if◌then◌else◌, ◌==◌, pos, negsuc,
}
use schemaless_benchmarks.Object.{Object, no_elements, element, no_entries, entry}
use schemaless_benchmarks.Object.Fits.{Fits}
use schemaless_benchmarks.Mpack.Write.{
  Call, write_nil, write_bool, write_double, write_i64, write_u64, write_str, start_array,
  finish_array, start_map, finish_map,
}
use schemaless_benchmarks.Mpack.Read.{
  Tag, nil, bool, int, uint, double, str, array, map, other, Mpack,
}
use schemaless_benchmarks.Mpack.Read.Laws.{
  Stands, of_nil, of_bool, of_double, of_u64, of_i64, of_pos, of_str, of_array, of_map, body,
  IsTyped, ReadsBack,
}

abbrev pub bytes_of : Call → List ℕ
bytes_of write_nil = 0 ∷ 0 ∷ []
bytes_of (write_bool false) = 1 ∷ 0 ∷ []
bytes_of (write_bool true) = 1 ∷ 1 ∷ []
bytes_of (write_double x) = 2 ∷ x ∷ []
bytes_of (write_u64 x) = 3 ∷ x ∷ []
bytes_of (write_i64 (pos x)) = 3 ∷ x ∷ []
bytes_of (write_i64 (negsuc x)) = 4 ∷ x ∷ []
bytes_of (write_str s) = 5 ∷ length s ∷ s
bytes_of (start_array n) = 6 ∷ n ∷ []
bytes_of (start_map n) = 7 ∷ n ∷ []
bytes_of finish_array = []
bytes_of finish_map = []

abbrev decode : List ℕ → Tag × List ℕ
decode (t ∷ x ∷ rest) = (
  (if t == 0
      then nil
      else if t == 1
      then bool (x == 1)
      else if t == 2
      then double x
      else if t == 3
      then uint x
      else if t == 4
      then int (negsuc x)
      else if t == 5
      then str x
      else if t == 6
      then array x
      else if t == 7
      then map x
      else other),
  rest,
)
decode rest = (other, rest)

abbrev expect : List ℕ → ℕ × List ℕ
expect (t ∷ x ∷ rest) = (x, rest)
expect rest = (0, rest)

abbrev same : List ℕ → List ℕ
same reader = reader

abbrev pub mpack : Mpack (List ℕ)
mpack = record {
  init_data = λ bytes size. take size bytes;
  read_tag = decode;
  expect_str = expect;
  read_inplace = λ n reader. (take n reader, drop n reader);
  is_ok = λ reader. true;
  done_str = same;
  done_array = same;
  done_map = same;
  flag_error = same;
  destroy = λ reader. true;
}

abbrev pub Holds : List ℕ → List ℕ → Type 0
Holds reader unread = reader ≡ unread

tags :
    (reader : List ℕ) (c : Call) (rest : List ℕ)
    → IsTyped c
    → Holds reader (bytes_of c ++ rest)
    → Stands c (mpack.read_tag reader).0 × Holds (mpack.read_tag reader).1 (body c ++ rest)
tags reader write_nil rest typed holds = rw holds (of_nil, refl)
tags reader (write_bool false) rest typed holds = rw holds (of_bool false, refl)
tags reader (write_bool true) rest typed holds = rw holds (of_bool true, refl)
tags reader (write_double x) rest typed holds = rw holds (of_double x, refl)
tags reader (write_u64 x) rest typed holds = rw holds (of_u64 x, refl)
tags reader (write_i64 (pos x)) rest typed holds = rw holds (of_pos x, refl)
tags reader (write_i64 (negsuc x)) rest typed holds = rw holds (of_i64 (negsuc x), refl)
tags reader (write_str s) rest typed holds = rw holds (of_str s, refl)
tags reader (start_array n) rest typed holds = rw holds (of_array n, refl)
tags reader (start_map n) rest typed holds = rw holds (of_map n, refl)
tags reader finish_array rest typed holds = absurd typed
tags reader finish_map rest typed holds = absurd typed

pub back : ReadsBack mpack bytes_of Holds
back = record {
  starts = take-length-append;
  tags = tags;
  lengths = λ reader s rest short holds. rw holds (refl, refl);
  strings = λ reader s rest holds. rw holds (take-length-append s rest, drop-length-append s rest);
  fine = λ reader rest holds. refl;
  after_str = λ reader rest holds. holds;
  after_array = λ reader rest holds. holds;
  after_map = λ reader rest holds. holds;
  ends = λ reader rest holds. refl;
  array_closed = refl;
  map_closed = refl;
}

abbrev pub append_bytes : Call → List ℕ → List ℕ
append_bytes = λ c w. w ++ bytes_of c

abbrev pub object : Object
object = Object.map (
    entry (b'k' ∷ [])
      (Object.array (element (Object.int (negsuc 6)) (element (Object.bool true) no_elements)))
      no_entries)

pub object-Fits : Fits (2 ^ 32) object
unfolding Fits
object-Fits = (omega arith, (omega arith, (omega arith, (omega arith, (tt, tt))), tt))
