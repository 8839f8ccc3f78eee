-- ===== src/Bson/Tests.antt =====
-- A document of one number.
use schemaless_benchmarks.Base.{◌≡◌, refl, true, none, some, [], ◌∷◌, pos}
use schemaless_benchmarks.Hash.{hash_initial_value}
use schemaless_benchmarks.Benchmark.Go.{scored}
use schemaless_benchmarks.Benchmark.Load.{format_bson}
use schemaless_benchmarks.Benchmark.Load.Laws.{go_by, timed_by}
use schemaless_benchmarks.Benchmark.Load.Samples.{disk, on_disk, clock, nothing_held, few}
use schemaless_benchmarks.Bson.Iter.Timed.{go-bson}
use schemaless_benchmarks.HashObject
use schemaless_benchmarks.HashObject.Laws.{canonical}
use schemaless_benchmarks.Object.{Object, int, uint, map, no_entries, entry}
use schemaless_benchmarks.Parser.{Members, leaf, object, no_members, member, value}
use schemaless_benchmarks.Bson.Iter.{Leaf, hash_value, test}

abbrev document : Members Leaf
document = member (b'k' ∷ []) (leaf (Leaf.int32 (pos 7))) no_members

abbrev read : Object
read = map (entry (b'k' ∷ []) (int (pos 7)) no_entries)

abbrev original : Object
original = map (entry (b'k' ∷ []) (uint 7) no_entries)

-- A value of an unknown type inside a document is no error of the document.
swallowed : (hash_value (object (member (b'k' ∷ []) (leaf Leaf.other) no_members)) 15373).0 ≡ true
unfolding hash_value
swallowed = refl

go-bson_example :
    go_by clock
      (test (disk (1 ∷ 2 ∷ [])) (λ size. true) (λ bytes size. some document))
      5
      nothing_held
    ≡ scored
        (HashObject.hash_object original hash_initial_value)
        (timed_by clock 5)
        (record nothing_held { file_data = 1 ∷ 2 ∷ [] })
unfolding value canonical
go-bson_example =
    go-bson clock (disk (1 ∷ 2 ∷ [])) (λ size. true) (λ bytes size. some document) 5 (1 ∷ 2 ∷ [])
      document read original nothing_held few (on_disk format_bson (1 ∷ 2 ∷ []) 5 none) refl refl
      refl refl
