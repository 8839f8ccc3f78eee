-- ===== src/Mpack/Read/Laws.antt =====
-- What the reader of MPack makes of what its writer wrote.
use schemaless_benchmarks.Base.{ℕ, ◌^◌, ◌<◌, ◌≡◌, refl, Bool, true, List, [], ◌++◌, length, ℤ, pos}
use schemaless_benchmarks.Object.Valid.{IsInt64}
use schemaless_benchmarks.Hash.{hash_str}
use schemaless_benchmarks.Mpack.Write.{
  Call, write_nil, write_bool, write_double, write_i64, write_u64, write_str, start_array,
  finish_array, start_map, finish_map,
}
use schemaless_benchmarks.Mpack.Read.{
  Tag, nil, bool, int, uint, double, str, array, map, Mpack, go_on, Flow, Part, next, returned,
  check, hash_body,
}

-- The tag that is read for a call: a number that is not negative may be written as an unsigned one.
pub data Stands : Call → Tag → Type 0 where
  of_nil : Stands write_nil nil
  of_bool : (x : Bool) → Stands (write_bool x) (bool x)
  of_double : (x : ℕ) → Stands (write_double x) (double x)
  of_u64 : (x : ℕ) → Stands (write_u64 x) (uint x)
  of_i64 : (x : ℤ) → Stands (write_i64 x) (int x)
  of_pos : (x : ℕ) → Stands (write_i64 (pos x)) (uint x)
  of_str : (s : List ℕ) → Stands (write_str s) (str (length s))
  of_array : (n : ℕ) → Stands (start_array n) (array n)
  of_map : (n : ℕ) → Stands (start_map n) (map n)

-- What is left of a call's bytes when its tag has been read: the bytes of a string.
abbrev pub body : Call → List ℕ
body (write_str s) = s
body _ = []

-- The arguments have the types of the parameters, and the call begins a value.
abbrev pub IsTyped : Call → Type 0
IsTyped (write_i64 x) = IsInt64 x
IsTyped (write_u64 x) = x < 2 ^ 64
IsTyped (write_str s) = length s < 2 ^ 32
IsTyped (start_array n) = n < 2 ^ 32
IsTyped (start_map n) = n < 2 ^ 32
IsTyped finish_array = ⊥
IsTyped finish_map = ⊥
IsTyped _ = Unit

-- The reader reads what the writer wrote. `Holds reader unread` says that there is no error, and which bytes
-- are not read yet.
pub record ReadsBack {R : Type 0} (mpack : Mpack R) (bytes_of : Call → List ℕ)
    (Holds : R → List ℕ → Type 0) : Type 0 where
  pub starts :
      (unread behind : List ℕ) → Holds (mpack.init_data (unread ++ behind) (length unread)) unread
  pub tags :
      (reader : R) (c : Call) (rest : List ℕ)
      → IsTyped c
      → Holds reader (bytes_of c ++ rest)
      → Stands c (mpack.read_tag reader).0 × Holds (mpack.read_tag reader).1 (body c ++ rest)
  pub lengths :
      (reader : R) (s rest : List ℕ)
      → length s < 2 ^ 32
      → Holds reader (bytes_of (write_str s) ++ rest)
      → ((mpack.expect_str reader).0 ≡ length s) × Holds (mpack.expect_str reader).1 (s ++ rest)
  pub strings :
      (reader : R) (s rest : List ℕ)
      → Holds reader (s ++ rest)
      → ((mpack.read_inplace (length s) reader).0 ≡ s)
        × Holds (mpack.read_inplace (length s) reader).1 rest
  pub fine : (reader : R) (rest : List ℕ) → Holds reader rest → mpack.is_ok reader ≡ true
  pub after_str :
      (reader : R) (rest : List ℕ) → Holds reader rest → Holds (mpack.done_str reader) rest
  pub after_array :
      (reader : R) (rest : List ℕ) → Holds reader rest → Holds (mpack.done_array reader) rest
  pub after_map :
      (reader : R) (rest : List ℕ) → Holds reader rest → Holds (mpack.done_map reader) rest
  pub ends : (reader : R) (rest : List ℕ) → Holds reader rest → mpack.destroy reader ≡ true
  pub array_closed : bytes_of finish_array ≡ []
  pub map_closed : bytes_of finish_map ≡ []

-- A part goes on with a hash, and a reader that holds the bytes that are left.
abbrev pub Goes : {R : Type 0} → (R → List ℕ → Type 0) → Flow R → ℕ → List ℕ → Type 0
Goes {R} Holds flow hash rest = (reader : R) × (flow ≡ go_on hash reader) × Holds reader rest

module _ {R : Type 0} (Holds : R → List ℕ → Type 0) where
  pub next-Goes :
      (flow : Flow R) (k : Part R) (h h' : ℕ) (middle rest : List ℕ)
      → Goes Holds flow h middle
      → ((reader : R) → Holds reader middle → Goes Holds (k reader h) h' rest)
      → Goes Holds (next flow k) h' rest
  next-Goes flow k h h' middle rest (reader, e, holds) follows = rw e (follows reader holds)

  pub returned-Goes :
      (flow : Flow R) (h : ℕ) (rest : List ℕ)
      → Goes Holds flow h rest
      → Goes Holds (returned flow) h rest
  returned-Goes flow h rest (reader, e, holds) = (reader, rw e refl, holds)

module _ {R : Type 0} (mpack : Mpack R) (bytes_of : Call → List ℕ) (Holds : R → List ℕ → Type 0)
    (back : ReadsBack mpack bytes_of Holds) where
  pub check-Goes :
      (reader : R) (h : ℕ) (rest : List ℕ)
      → Holds reader rest
      → Goes Holds (check mpack reader h) h rest
  unfolding check
  check-Goes reader h rest holds = (reader, rw (back.fine reader rest holds) refl, holds)

  pub body-Goes :
      (s : List ℕ) (reader : R) (h : ℕ) (rest : List ℕ)
      → Holds reader (s ++ rest)
      → Goes Holds (hash_body mpack (length s) reader h) (hash_str h s) rest
  unfolding hash_body
  body-Goes s reader h rest holds =
      let (same, holds') = back.strings reader s rest holds in
      let reader' = (mpack.read_inplace (length s) reader).1 in
      next-Goes Holds (check mpack reader' h)
        (λ r g. go_on (hash_str g (mpack.read_inplace (length s) reader).0) (mpack.done_str r)) h
        (hash_str h s) rest rest (check-Goes reader' h rest holds')
        (λ r holds''. (mpack.done_str r, rw same refl, back.after_str r rest holds''))
