-- ===== src/Generator/Pool.antt =====
-- src/common/generator.c: `object_copy` and `object_create`, which lay an object out in one block of
-- memory. An address is a number.
pub mod Layout
pub mod Create
use schemaless_benchmarks.Base.{ℕ, ◌+◌, ◌*◌, List, [], ◌∷◌, ◌++◌, length}
use schemaless_benchmarks.Object.{
  Object, Elements, Entries, str, array, map, no_elements, element, no_entries, entry,
  count_elements, count_entries,
}
use schemaless_benchmarks.Generator.Outcome.{Outcome, ok, ◌>>=◌}
use schemaless_benchmarks.Generator.Init.{Reals, sizeof_object, object_align, create_source}

-- Bytes that the copy writes: an array of `object_t`, or a string with its null.
pub record Block : Type 0 where
  pub address : ℕ
  pub size : ℕ

-- The blocks written, and the pool's next free address.
abbrev pub Copy : Type 0
Copy = List Block × ℕ

-- The block of a string.
abbrev pub copy_str : List ℕ → ℕ → Copy
copy_str s pool =
    (record { address = pool; size = length s + 1 } ∷ [], pool + object_align (length s + 1))

unfoldable mutual
  pub object_copy : Object → ℕ → Copy
  object_copy (str s) pool = copy_str s pool
  object_copy (array xs) pool =
      let rest = copy_elements xs (pool + object_align (sizeof_object * count_elements xs)) in
      (record { address = pool; size = sizeof_object * count_elements xs } ∷ rest.0, rest.1)
  object_copy (map es) pool =
      let rest = copy_entries es (pool + object_align (sizeof_object * count_entries es * 2)) in
      (record { address = pool; size = sizeof_object * count_entries es * 2 } ∷ rest.0, rest.1)
  object_copy _ pool = ([], pool)

  pub copy_elements : Elements → ℕ → Copy
  copy_elements no_elements pool = ([], pool)
  copy_elements (element x xs) pool =
      let first = object_copy x pool in
      let rest = copy_elements xs first.1 in (first.0 ++ rest.0, rest.1)

  -- A key is the string object before its value.
  pub copy_entries : Entries → ℕ → Copy
  copy_entries no_entries pool = ([], pool)
  copy_entries (entry k x es) pool =
      let key = copy_str k pool in
      let value = object_copy x key.1 in
      let rest = copy_entries es value.1 in (key.0 ++ (value.0 ++ rest.0), rest.1)

-- What `object_create` leaves: the object, the size of the block at `base`, and the blocks of the copy,
-- the root's `object_t` before them.
pub record Created : Type 0 where
  pub root : Object
  pub total_size : ℕ
  pub blocks : List Block
  pub pool : ℕ

-- `malloc` gives the block at `base`.
unfoldable pub object_create : Reals → ℕ → ℕ → ℕ → ℕ → Outcome Created
object_create real retries base seed size = do
  (src, total_size, random) ← create_source real retries seed size
  let copy = object_copy src (base + object_align sizeof_object)
  ok (record {
    root = src;
    total_size = total_size;
    blocks = record { address = base; size = sizeof_object } ∷ copy.0;
    pool = copy.1;
  })
