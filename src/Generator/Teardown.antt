-- ===== src/Generator/Teardown.antt =====
-- src/common/generator.c: `object_teardown`, which frees the blocks that `object_init` allocated.
pub mod Laws
mod Tests
use schemaless_benchmarks.Base.{
  and_then, ℕ, zero, suc, ◌*◌, ◌≡◌, Bool, ◌&&◌, not, ◌==◌, Option, none, some, List, [], ◌∷◌, ◌++◌,
  if◌then◌else◌,
}

-- What an `object_t` of `object_init` points to: nothing, the block of a string, or the block of its children with
-- its `l` and the children. A map has its keys and values side by side.
mutual
  pub data Stored : Type 0 where
    plain : Stored
    text : ℕ → Stored
    array : ℕ → ℕ → Children → Stored
    map : ℕ → ℕ → Children → Stored

  pub data Children : Type 0 where
    no_children : Children
    child : Stored → Children → Children

-- Which blocks are allocated.
abbrev pub Heap : Type 0
Heap = ℕ → Bool

-- The heap without a block.
abbrev pub without : ℕ → Heap → Heap
without block live x = live x && not (x == block)

-- `none` stands for freeing a block that is not allocated.
unfoldable pub free : ℕ → Heap → Option Heap
free block live = if live block then some (without block live) else none

unfoldable mutual
  pub object_teardown : Stored → Heap → Option Heap
  object_teardown plain live = some live
  object_teardown (text block) live = free block live
  object_teardown (map block l cs) live = and_then (teardown_children (l * 2) cs live) (free block)
  object_teardown (array block l cs) live = and_then (teardown_children l cs live) (free block)

  -- The loop over the children that are left; `none` is also an access behind the last child.
  pub teardown_children : ℕ → Children → Heap → Option Heap
  teardown_children zero cs live = some live
  teardown_children (suc n) no_children live = none
  teardown_children (suc n) (child s cs) live =
      and_then (object_teardown s live) (teardown_children n cs)

-- The blocks of an object.
unfoldable mutual
  pub blocks_of : Stored → List ℕ
  blocks_of plain = []
  blocks_of (text block) = block ∷ []
  blocks_of (array block l cs) = blocks_of_children cs ++ block ∷ []
  blocks_of (map block l cs) = blocks_of_children cs ++ block ∷ []

  pub blocks_of_children : Children → List ℕ
  blocks_of_children no_children = []
  blocks_of_children (child s cs) = blocks_of s ++ blocks_of_children cs

abbrev pub count_children : Children → ℕ
count_children no_children = 0
count_children (child s cs) = suc (count_children cs)

-- The blocks of children have a place for each child: `l` of an array, and twice `l` of a map.
unfoldable mutual
  pub IsLaidOut : Stored → Type 0
  IsLaidOut plain = Unit
  IsLaidOut (text block) = Unit
  IsLaidOut (array block l cs) = (l ≡ count_children cs) × AreLaidOut cs
  IsLaidOut (map block l cs) = (l * 2 ≡ count_children cs) × AreLaidOut cs

  pub AreLaidOut : Children → Type 0
  AreLaidOut no_children = Unit
  AreLaidOut (child s cs) = IsLaidOut s × AreLaidOut cs
