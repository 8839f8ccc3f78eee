-- ===== src/Object.antt =====
-- src/common/generator.h: the tree of dynamically typed values that every benchmark works on.
pub mod Valid
pub mod Nesting
pub mod Fits
pub mod Append
pub mod Samples
use schemaless_benchmarks.Base.{ℕ, zero, suc, ◌+◌, Bool, List, ℤ}

-- `object_t`: the tag `type_t` with the union member that it selects. A double is its bit pattern,
-- a string is its bytes without the terminating null (`l` is their number), and the key and value
-- objects that a map holds side by side in `children` are one entry.
mutual
  pub data Object : Type 0 where
    nil : Object
    bool : Bool → Object
    double : ℕ → Object
    int : ℤ → Object
    uint : ℕ → Object
    str : List ℕ → Object
    array : Elements → Object
    map : Entries → Object

  pub data Elements : Type 0 where
    no_elements : Elements
    element : Object → Elements → Elements

  pub data Entries : Type 0 where
    no_entries : Entries
    entry : List ℕ → Object → Entries → Entries

-- `l` of an array, and of a map.
abbrev pub count_elements : Elements → ℕ
count_elements no_elements = 0
count_elements (element x xs) = suc (count_elements xs)

abbrev pub count_entries : Entries → ℕ
count_entries no_entries = 0
count_entries (entry k x es) = suc (count_entries es)
