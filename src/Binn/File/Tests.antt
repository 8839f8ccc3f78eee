-- ===== src/Binn/File/Tests.antt =====
-- A file with a map in an array, written and read.
use schemaless_benchmarks.Base.{ℕ, true, List, [], ◌∷◌}
use schemaless_benchmarks.HashObject
use schemaless_benchmarks.Benchmark.{Malloc}
use schemaless_benchmarks.Binn.Load as Load
use schemaless_benchmarks.Binn.Load.{
  Value, Leaf, leaf, list, object, no_items, item, no_members, member,
}

abbrev entry_read : Value
entry_read =
    object (record { count = 1; opens = true })
      (member (b'a' ∷ b'b' ∷ []) (leaf (Leaf.string (b'c' ∷ []))) no_members)

abbrev value_read : Value
value_read =
    list (record { count = 2; opens = true })
      (item (leaf (Leaf.uint8 7)) (item entry_read no_items))

abbrev load : List ℕ → Value
load bytes = value_read

abbrev given : Malloc
given n = true
