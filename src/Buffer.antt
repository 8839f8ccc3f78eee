-- ===== src/Buffer.antt =====
-- src/common/buffer.h: the growable buffer for libraries that have none.
pub mod Growth
pub mod Write
mod Tests
use schemaless_benchmarks.Base.{
  ℕ, zero, suc, ◌+◌, ◌*◌, Bool, true, false, Option, none, some, List, [], ◌∷◌, ◌++◌, length, ltb,
  u64, if◌then◌else◌,
}

-- `buffer_t`: the bytes written so far, their `count`, and the capacity of the block that they are in.
pub record Buffer : Type 0 where
  pub contents : List ℕ
  pub count : ℕ
  pub capacity : ℕ

-- The outcome of the C library's `realloc(data, size)`: whether it gives a block.
abbrev pub Realloc : Type 0
Realloc = ℕ → Bool

unfoldable pub buffer_init : Buffer
buffer_init = record { contents = []; count = 0; capacity = 4096 }

-- `while (needed > new_capacity) new_capacity *= 2;` on a 64-bit `size_t`. `none` means that the fuel
-- ran out.
unfoldable pub grow : ℕ → ℕ → ℕ → Option ℕ
grow zero needed new_capacity = none
grow (suc fuel) needed new_capacity =
    let rest = grow fuel needed (u64 (new_capacity * 2)) in
    if ltb new_capacity needed then rest else some new_capacity

-- `memcpy` behind the bytes written so far, and `count += …`.
abbrev pub append_bytes : Buffer → List ℕ → Buffer
append_bytes buffer bytes = record buffer {
  contents = buffer.contents ++ bytes;
  count = u64 (buffer.count + length bytes);
}

-- The result and the buffer after it. 64 rounds are enough for the loop.
unfoldable pub buffer_write : Realloc → Buffer → List ℕ → Option (Bool × Buffer)
buffer_write realloc buffer bytes =
    let needed = u64 (buffer.count + length bytes) in
    if ltb buffer.capacity needed
    then elim (grow 64 needed (u64 (buffer.capacity * 2))) [
      | none ↦ none
      | some new_capacity ↦
          if realloc new_capacity
          then some (true, append_bytes (record buffer { capacity = new_capacity }) bytes)
          else some (false, buffer)
    ]
    else some (true, append_bytes buffer bytes)
