-- ===== src/Generator/Teardown/Laws.antt =====
-- `object_teardown` frees each block once.
use schemaless_benchmarks.Base.{
  and_then, regroup, ℕ, ◌≡◌, ◌≢◌, refl, ◌∙◌, All, Bool-cases, true, ◌==◌, ==_iff, inl, inr, Option,
  none, some, List, [], ◌∷◌, ◌++◌,
}
use schemaless_benchmarks.Generator.Teardown.{
  Stored, Children, plain, text, array, map, no_children, child, count_children, IsLaidOut,
  AreLaidOut, Heap, without, free, object_teardown, teardown_children, blocks_of,
  blocks_of_children,
}

-- Blocks freed one after the other.
unfoldable pub free_all : List ℕ → Heap → Option Heap
free_all [] live = some live
free_all (block ∷ blocks) live = and_then (free block live) (free_all blocks)

free_all-append :
    (cs bs : List ℕ) (live : Heap)
    → and_then (free_all cs live) (free_all bs) ≡ free_all (cs ++ bs) live
unfolding free_all
free_all-append [] bs live = refl
free_all-append (a ∷ cs) bs live =
    regroup (free a live) (free_all cs) (free_all bs) (free_all (cs ++ bs)) (free_all-append cs bs)

same_rest :
    (o : Option Heap) (f g : Heap → Option Heap)
    → ((live : Heap) → f live ≡ g live)
    → and_then o f ≡ and_then o g
same_rest none f g e = refl
same_rest (some live) f g e = e live

only : (block : ℕ) (live : Heap) → free block live ≡ free_all (block ∷ []) live
unfolding free_all
only block live = whole (free block live)
  where
    whole : (o : Option Heap) → o ≡ and_then o (λ l. some l)
    whole none = refl
    whole (some l) = refl

-- The children and then their block.
block-frees :
    (block : ℕ) (blocks : List ℕ) (live : Heap) (freed : Option Heap)
    → freed ≡ free_all blocks live
    → and_then freed (free block) ≡ free_all (blocks ++ block ∷ []) live
block-frees block blocks live freed e =
    rw e (same_rest (free_all blocks live) (free block) (free_all (block ∷ [])) (only block))
    ∙ free_all-append blocks (block ∷ []) live

mutual
  unfolding object_teardown blocks_of free_all IsLaidOut

  object-frees :
      (s : Stored) (live : Heap)
      → IsLaidOut s
      → object_teardown s live ≡ free_all (blocks_of s) live
  object-frees plain live laid = refl
  object-frees (text block) live laid = only block live
  object-frees (array block l cs) live laid = rw laid.0 (
      block-frees block (blocks_of_children cs) live (teardown_children (count_children cs) cs live)
        (children-frees cs live laid.1))
  object-frees (map block l cs) live laid = rw laid.0 (
      block-frees block (blocks_of_children cs) live (teardown_children (count_children cs) cs live)
        (children-frees cs live laid.1))

  children-frees :
      (cs : Children) (live : Heap)
      → AreLaidOut cs
      → teardown_children (count_children cs) cs live ≡ free_all (blocks_of_children cs) live
  children-frees no_children live laid = refl
  children-frees (child s cs) live laid =
      rw (object-frees s live laid.0) (
        same_rest (free_all (blocks_of s) live) (teardown_children (count_children cs) cs)
          (free_all (blocks_of_children cs)) (λ l. children-frees cs l laid.1))
      ∙ free_all-append (blocks_of s) (blocks_of_children cs) live

-- No block stands twice in the list.
unfoldable pub AreDistinct : List ℕ → Type 0
AreDistinct [] = Unit
AreDistinct (block ∷ blocks) = All (λ other. other ≢ block) blocks × AreDistinct blocks

-- The heap without the blocks of a list.
abbrev pub without_all : List ℕ → Heap → Heap
without_all [] live = live
without_all (block ∷ blocks) live = without_all blocks (without block live)

still_live :
    (block : ℕ) (blocks : List ℕ) (live : Heap)
    → All (λ other. other ≢ block) blocks
    → All (λ other. live other ≡ true) blocks
    → All (λ other. without block live other ≡ true) blocks
still_live block [] live differ all_live = tt
still_live block (other ∷ blocks) live differ all_live = (
  elim (Bool-cases (other == block)) [
    | inl same ↦ absurd (differ.0 ((==_iff other block).0 same))
    | inr differs ↦ rw (all_live.0, differs) refl
  ],
  still_live block blocks live differ.1 all_live.1,
)

free_all-live :
    (blocks : List ℕ) (live : Heap)
    → AreDistinct blocks
    → All (λ block. live block ≡ true) blocks
    → free_all blocks live ≡ some (without_all blocks live)
unfolding free_all free AreDistinct
free_all-live [] live distinct all_live = refl
free_all-live (block ∷ blocks) live distinct all_live = rw all_live.0 (
    free_all-live blocks (without block live) distinct.1
      (still_live block blocks live distinct.0 all_live.1))

-- Where the blocks of an object are allocated and different from each other, and have as many children as `l` says,
-- `l` for an array and twice `l` for a map, `object_teardown` reads no child that is not there, frees no block that
-- is not allocated, none twice, and leaves exactly the heap without the object's blocks.
pub object_teardown-frees :
    (s : Stored) (live : Heap)
    → IsLaidOut s
    → AreDistinct (blocks_of s)
    → All (λ block. live block ≡ true) (blocks_of s)
    → object_teardown s live ≡ some (without_all (blocks_of s) live)
object_teardown-frees s live laid distinct all_live =
    object-frees s live laid ∙ free_all-live (blocks_of s) live distinct all_live
