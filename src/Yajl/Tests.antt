-- ===== src/Yajl/Tests.antt =====
-- A `yajl_val` of one number.
use schemaless_benchmarks.Base.{◌≡◌, refl, true, none, some, [], ◌∷◌, pos}
use schemaless_benchmarks.Hash.{hash_initial_value}
use schemaless_benchmarks.Benchmark.Go.{scored}
use schemaless_benchmarks.Benchmark.Load.{format_json}
use schemaless_benchmarks.Benchmark.Load.Laws.{go_by, timed_by}
use schemaless_benchmarks.Benchmark.Load.Samples.{disk, on_disk, clock, nothing_held, few}
use schemaless_benchmarks.Yajl.Tree.Timed.{go-yajl_tree}
use schemaless_benchmarks.HashObject
use schemaless_benchmarks.HashObject.Laws.{canonical}
use schemaless_benchmarks.Object.{Object, int, uint, array, no_elements, element}
use schemaless_benchmarks.Parser.{Tree, leaf, list, no_items, item, value}
use schemaless_benchmarks.Yajl.Tree.{Leaf, test}

abbrev tree : Tree Leaf
tree = list (item (leaf (Leaf.integer (pos 7))) no_items)

abbrev read : Object
read = array (element (int (pos 7)) no_elements)

abbrev original : Object
original = array (element (uint 7) no_elements)

go-yajl_tree_example :
    go_by clock (test (disk (1 ∷ 2 ∷ [])) (λ size. true) (λ bytes. some tree)) 5 nothing_held
    ≡ scored
        (HashObject.hash_object original hash_initial_value)
        (timed_by clock 5)
        (record nothing_held { file_data = 1 ∷ 2 ∷ [] })
unfolding value canonical
go-yajl_tree_example =
    go-yajl_tree clock (disk (1 ∷ 2 ∷ [])) (λ size. true) (λ bytes. some tree) 5 (1 ∷ 2 ∷ []) tree
      read original nothing_held few (on_disk format_json (1 ∷ 2 ∷ []) 5 none) refl refl refl refl
