-- ===== src/Cmp/Read/Laws.antt =====
-- src/cmp/cmp-read.c against what cmp-write.c writes.
use mathlib.Core.List.{append_assoc}
use schemaless_benchmarks.Base.{
  ℕ, ◌-◌, ◌^◌, ◌≤◌, ◌<◌, ◌≡◌, refl, arith, Bool, Bool-cases, true, false, inl, inr, List, [], ◌++◌,
  length, length-append, take, take-length-append, drop-length-append, ltb, ltb→lt, ℤ, pos,
}
use schemaless_benchmarks.Object.Valid.{IsInt64}
use schemaless_benchmarks.Writer.Bytes.{bytes, bytes-append}
use schemaless_benchmarks.Writer.{Event}
use schemaless_benchmarks.Cmp.Write.{
  Call, write_nil, write_bool, write_double, write_sint, write_uint, write_str, write_array,
  write_map, encode,
}
use schemaless_benchmarks.Cmp.Read.{
  Buffer, advance, Reader, buffer_cmp_reader, Width, CmpObject, nil, boolean, double, unsigned,
  signed, str, array, map, Cmp, hashed, Reading, next,
}

-- A buffer of which the bytes `unread` are left; behind them is what must not be read.
abbrev pub at : List ℕ → List ℕ → Buffer
at unread behind = record { data_at = unread ++ behind; left = length unread }

-- A reader gives the next bytes of such a buffer.
abbrev pub Delivers : Reader → Type 0
Delivers reader =
    (bytes rest behind : List ℕ)
    → reader (at (bytes ++ rest) behind) (length bytes) ≡ (true, bytes, at rest behind)

ltb-not : (a b : ℕ) → b ≤ a → ltb a b ≡ false
ltb-not a b p = elim (Bool-cases (ltb a b)) [
  | inl less ↦ absurd (let q = ltb→lt a b less in omega arith)
  | inr e ↦ e
]

-- The next bytes of a buffer, and the buffer after them.
pub taken :
    (bytes rest behind : List ℕ)
    → (take (length bytes) ((bytes ++ rest) ++ behind) ≡ bytes)
      × (advance (length bytes) (at (bytes ++ rest) behind) ≡ at rest behind)
taken bytes rest behind =
    let count : length (bytes ++ rest) - length bytes ≡ length rest =
      omega (arith, length-append bytes rest) in
    (
      rw (append_assoc bytes rest behind) (take-length-append bytes (rest ++ behind)),
      rw (count, append_assoc bytes rest behind, drop-length-append bytes (rest ++ behind)) refl,
    )

pub within : (bytes rest : List ℕ) → ltb (length (bytes ++ rest)) (length bytes) ≡ false
within bytes rest =
    ltb-not (length (bytes ++ rest)) (length bytes) (omega (arith, length-append bytes rest))

pub buffer_cmp_reader-Delivers : Delivers buffer_cmp_reader
unfolding buffer_cmp_reader
buffer_cmp_reader-Delivers bytes rest behind =
    let (first, second) = taken bytes rest behind in rw (within bytes rest, first, second) refl

-- The object that cmp reads for a call of its writer: MessagePack has several widths, and a number that is
-- not negative may be written as an unsigned one.
pub data Stands : Call → CmpObject → Type 0 where
  of_nil : Stands write_nil nil
  of_bool : (x : Bool) → Stands (write_bool x) (boolean x)
  of_double : (x : ℕ) → Stands (write_double x) (double x)
  of_uint : (width : Width) (x : ℕ) → Stands (write_uint x) (unsigned width x)
  of_sint : (width : Width) (x : ℤ) → Stands (write_sint x) (signed width x)
  of_pos : (width : Width) (x : ℕ) → Stands (write_sint (pos x)) (unsigned width x)
  of_str : (width : Width) (s : List ℕ) → Stands (write_str s) (str width (length s))
  of_array : (width : Width) (n : ℕ) → Stands (write_array n) (array width n)
  of_map : (width : Width) (n : ℕ) → Stands (write_map n) (map width n)

-- What is left of a call's bytes when its object has been read: the bytes of a string.
abbrev pub body : Call → List ℕ
body (write_str s) = s
body _ = []

-- The arguments have the types of cmp's parameters.
abbrev pub IsTyped : Call → Type 0
IsTyped (write_sint x) = IsInt64 x
IsTyped (write_uint x) = x < 2 ^ 64
IsTyped (write_str s) = length s < 2 ^ 32
IsTyped (write_array n) = n < 2 ^ 32
IsTyped (write_map n) = n < 2 ^ 32
IsTyped _ = Unit

-- cmp reads what it wrote, with every reader that delivers: `bytes_of` are the bytes of a call.
pub record ReadsBack (cmp_init : Reader → Cmp) (bytes_of : Call → List ℕ) : Type 0 where
  pub objects :
      (reader : Reader)
      → Delivers reader
      → (c : Call) → IsTyped c
      → (rest behind : List ℕ)
      → (x : CmpObject) × ((cmp_init reader).read_object (at (bytes_of c ++ rest) behind)
          ≡ (true, x, at (body c ++ rest) behind))
        × Stands c x
  pub strings :
      (reader : Reader)
      → Delivers reader
      → (s : List ℕ) → length s < 16
      → (rest behind : List ℕ)
      → (cmp_init reader).read_str 16 (at (bytes_of (write_str s) ++ rest) behind)
        ≡ (true, s, at rest behind)

-- A function reads the bytes of the events, and changes the hash by `f`.
abbrev pub Consumes : (Call → List ℕ) → Reading → List Event → (ℕ → ℕ) → Type 0
Consumes bytes_of m es f =
    (rest behind : List ℕ) (hash : ℕ)
    → m (at (bytes encode bytes_of es ++ rest) behind) hash ≡ hashed (f hash) (at rest behind)

pub Consumes-next :
    (bytes_of : Call → List ℕ) (m k : Reading) (es fs : List Event) (f g : ℕ → ℕ)
    → Consumes bytes_of m es f
    → Consumes bytes_of k fs g
    → Consumes bytes_of (λ buffer hash. next (m buffer hash) k) (es ++ fs) (λ hash. g (f hash))
Consumes-next bytes_of m k es fs f g p q rest behind hash =
    rw (bytes-append encode bytes_of es fs rest, p (bytes encode bytes_of fs ++ rest) behind hash)
      (q rest behind (f hash))
