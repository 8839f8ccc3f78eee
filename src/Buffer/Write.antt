-- ===== src/Buffer/Write.antt =====
-- `buffer_write` against a list of bytes that grows at its end.
use schemaless_benchmarks.Base.{
  ℕ, ◌+◌, ◌*◌, ◌^◌, ◌≤◌, ◌<◌, ◌≡◌, refl, arith, Bool, true, false, Bool-cases, inl, inr, ◌⊎◌, some,
  List, ◌++◌, length, length-append, ltb, ltb→lt, u64, if◌then◌else◌,
}
use schemaless_benchmarks.Buffer.{Buffer, Realloc, buffer_init, append_bytes, buffer_write}
use schemaless_benchmarks.Buffer.Growth.{grow_lem}

-- The count is that of the bytes, which fit the block.
pub record IsValid (buffer : Buffer) : Type 0 where
  pub counted : buffer.count ≡ length buffer.contents
  pub fits : buffer.count ≤ buffer.capacity
  pub not_empty : 0 < buffer.capacity
  pub small : buffer.capacity < 2 ^ 63

pub buffer_init-IsValid : IsValid buffer_init
unfolding buffer_init
buffer_init-IsValid = omega arith

-- What a call of `buffer_write` leaves.
pub data Wrote (realloc : Realloc) (buffer : Buffer) (bytes : List ℕ) : Bool × Buffer → Type 0 where
  appended :
      (after : Buffer)
      → after.contents ≡ buffer.contents ++ bytes
      → IsValid after
      → buffer.capacity ≤ after.capacity
      → Wrote realloc buffer bytes (true, after)
  refused :
      (size : ℕ)
      → buffer.capacity < length buffer.contents + length bytes
      → length buffer.contents + length bytes ≤ size
      → realloc size ≡ false
      → Wrote realloc buffer bytes (false, buffer)

append-IsValid :
    (buffer : Buffer) (bytes : List ℕ)
    → buffer.count ≡ length buffer.contents
    → u64 (buffer.count + length bytes) ≤ buffer.capacity
    → buffer.count + length bytes < 2 ^ 62
    → 0 < buffer.capacity
    → buffer.capacity < 2 ^ 63
    → IsValid (append_bytes buffer bytes)
append-IsValid buffer bytes c f l p q = record {
  counted = omega (arith, length-append {0} buffer.contents bytes);
  fits = f;
  not_empty = p;
  small = q;
}

-- For a valid buffer and less than 2 ^ 62 bytes in all, the loop ends, and `buffer_write` returns. It
-- returns true with the bytes behind those written before, in a valid buffer whose block has not
-- shrunk; or it returns false with the buffer unchanged, where the bytes do not fit the block and
-- `realloc` refused one that they would fit.
pub buffer_write-Wrote :
    (realloc : Realloc) (buffer : Buffer) (bytes : List ℕ)
    → IsValid buffer
    → buffer.count + length bytes < 2 ^ 62
    → (result : Bool × Buffer) × (buffer_write realloc buffer bytes ≡ some result)
      × Wrote realloc buffer bytes result
unfolding buffer_write
buffer_write-Wrote realloc buffer bytes v small =
    let needed = u64 (buffer.count + length bytes) in
    elim (Bool-cases (ltb buffer.capacity needed)) [
      | inr room ↦ rw room (
        _,
        refl,
        appended (append_bytes buffer bytes) refl
            (append-IsValid buffer bytes v.counted (ground arith) small v.not_empty v.small)
            (omega arith),
      )
      | inl full ↦
          let doubled : u64 (buffer.capacity * 2) ≡ buffer.capacity * 2 = omega (arith, v.small) in
          let below = ltb→lt buffer.capacity needed full in
          let (c, e, enough, grown, fits) =
            grow_lem 63 needed (u64 (buffer.capacity * 2)) (omega (arith, v.not_empty))
              (omega arith) (omega arith) (omega (arith, v.not_empty)) in
          rw (full, e) (given c enough grown fits below (Bool-cases (realloc c)))
    ]
  where
    given :
        (c : ℕ)
        → u64 (buffer.count + length bytes) ≤ c
        → u64 (buffer.capacity * 2) ≤ c
        → c < 2 ^ 63
        → buffer.capacity < u64 (buffer.count + length bytes)
        → (realloc c ≡ true) ⊎ (realloc c ≡ false)
        → (result : Bool × Buffer) × ((if realloc c
              then some (true, append_bytes (record buffer { capacity = c }) bytes)
              else some (false, buffer))
            ≡ some result)
          × Wrote realloc buffer bytes result
    given c enough grown fits below (inl yields) = rw yields (
      _,
      refl,
      appended (append_bytes (record buffer { capacity = c }) bytes) refl
          (append-IsValid (record buffer { capacity = c }) bytes v.counted enough small
            (omega (arith, v.not_empty)) fits)
          (omega arith),
    )
    given c enough grown fits below (inr refusal) =
        rw refusal
          (_, refl, refused c (omega (arith, v.counted)) (omega (arith, v.counted)) refusal)
