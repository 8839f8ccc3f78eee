-- ===== src/Parser.antt =====
-- What the tree parsers' benchmarks share: hashing with early return, the trees that the libraries
-- give back, and the object that such a tree stands for. The libraries are not part of the
-- repository: a tree holds what their public types show of a value.
pub mod Agrees
use schemaless_benchmarks.Base.{
  ℕ, zero, suc, Bool, true, false, Option, none, some, List, [], ◌∷◌, ◌==◌, if◌then◌else◌,
}
use schemaless_benchmarks.Object.{
  Object, Elements, Entries, array, map, no_elements, element, no_entries, entry,
}

-- A function that returns whether it succeeded and changes `*hash`.
abbrev pub Hashing : Type 0
Hashing = ℕ → Bool × ℕ

-- `*hash = f(*hash); return true;`
abbrev pub update : (ℕ → ℕ) → Hashing
update f hash = (true, f hash)

-- `return false;`
abbrev pub fail : Hashing
fail hash = (false, hash)

-- `return true;`
abbrev pub succeed : Hashing
succeed hash = (true, hash)

-- `if (!m) return false;` before what follows.
infixl 5 ◌>>◌
abbrev pub ◌>>◌ : Hashing → Hashing → Hashing
m >> k = λ hash. let (ok, hash') = m hash in if ok then k hash' else (false, hash')

-- A call whose result is thrown away.
abbrev pub ignore : Hashing → Hashing
ignore m hash = (true, (m hash).1)

-- A dynamically typed value of a library: `L` are its values without children. The members of an
-- object stand in the order in which the library gives them.
mutual
  pub data Tree (L : Type 0) : Type 0 where
    leaf : L → Tree L
    list : Items L → Tree L
    object : Members L → Tree L

  pub data Items (L : Type 0) : Type 0 where
    no_items : Items L
    item : Tree L → Items L → Items L

  pub data Members (L : Type 0) : Type 0 where
    no_members : Members L
    member : List ℕ → Tree L → Members L → Members L

abbrev pub item_count : {L : Type 0} → Items L → ℕ
item_count no_items = 0
item_count (item t ts) = suc (item_count ts)

abbrev pub member_count : {L : Type 0} → Members L → ℕ
member_count no_members = 0
member_count (member k t ms) = suc (member_count ms)

-- The bytes up to `strlen`.
abbrev pub c_str : List ℕ → List ℕ
c_str [] = []
c_str (b ∷ s) = if b == 0 then [] else b ∷ c_str s

abbrev pub array_of : Option Elements → Option Object
array_of none = none
array_of (some xs) = some (array xs)

abbrev pub map_of : Option Entries → Option Object
map_of none = none
map_of (some es) = some (map es)

abbrev pub element_of : Option Object → Option Elements → Option Elements
element_of (some x) (some xs) = some (element x xs)
element_of _ _ = none

abbrev pub entry_of : List ℕ → Option Object → Option Entries → Option Entries
entry_of k (some x) (some es) = some (entry k x es)
entry_of k _ _ = none

-- The object that a tree stands for, if all its values are of types that the benchmark has:
-- `leaf_value` reads the leaves and `key` the keys.
module _ {L : Type 0} (leaf_value : L → Option Object) (key : List ℕ → List ℕ) where
  unfoldable mutual
    pub value : Tree L → Option Object
    value (leaf l) = leaf_value l
    value (list ts) = array_of (values ts)
    value (object ms) = map_of (member_values ms)

    pub values : Items L → Option Elements
    values no_items = some no_elements
    values (item t ts) = element_of (value t) (values ts)

    pub member_values : Members L → Option Entries
    member_values no_members = some no_entries
    member_values (member k t ms) = entry_of (key k) (value t) (member_values ms)
