-- ===== src/Ubj/Write/Tests.antt =====
-- A library that writes each call's number and its argument, without errors.
use schemaless_benchmarks.Base.{
  ℕ, ◌+◌, ◌^◌, ◌≤◌, ◌<◌, ◌↔◌, All, ◌≡◌, refl, arith, true, false, ◌⊎◌, some, List, [], ◌∷◌, length,
}
use schemaless_benchmarks.Hash.{hash_str}
use schemaless_benchmarks.Object.{
  Object, nil, bool, array, Elements, Entries, no_entries, no_elements, element,
}
use schemaless_benchmarks.Ubj.Write.{
  ubj_mixed, ubj_nulltype, number, Call, Chunk, write_bool, begin_array, Ubjw, type_of_elements,
  type_of_entries, same_elements, get_ubj_type, run_test,
}
use schemaless_benchmarks.Ubj.Write.Laws.{trace}
use schemaless_benchmarks.Ubj.Write.Samples.{min_type}
use schemaless_benchmarks.Ubj.Write.Types.{element_types, entry_types, type_of_container_iff}
use schemaless_benchmarks.Ubj.Write.Document.{calls, run_test-ubj_write, ubj_write-run_test}

abbrev piece : List ℕ → Chunk
piece bytes = record { data_bytes = bytes; size = 1; count = length bytes }

abbrev pieces : Call → List Chunk
pieces (begin_array type n) = piece (91 ∷ []) ∷ piece (number type ∷ n ∷ []) ∷ []
pieces (write_bool x) = piece (84 ∷ []) ∷ []
pieces _ = piece (90 ∷ []) ∷ []

abbrev ubjw : Ubjw ℕ
ubjw = record { chunks = λ l c. pieces c; complains = λ l c. false; after = λ l c. l + 1 }

abbrev nils : Object
nils = array (element nil (element nil no_elements))

one_type : type_of_elements min_type (element nil (element nil no_elements)) ≡ ubj_nulltype
unfolding type_of_elements same_elements get_ubj_type
one_type = refl

two_types : type_of_elements min_type (element nil (element (bool true) no_elements)) ≡ ubj_mixed
unfolding type_of_elements same_elements get_ubj_type
two_types = refl

short : length (trace ubjw (λ size. true) 0 (calls min_type true nils)) < 2 ^ 62
unfolding trace calls
short = omega arith

run_test-ubj_write_example :
    (run_test min_type true ubjw (λ size. true) 0 true nils 15373 ≡ some (false, 15373))
    ⊎ ((true ≡ false)
        × (run_test min_type true ubjw (λ size. true) 0 true nils 15373
            ≡ some (true, hash_str 15373 (trace ubjw (λ size. true) 0 (calls min_type true nils)))))
run_test-ubj_write_example =
    run_test-ubj_write min_type true ubjw (λ size. true) 0 true nils 15373 short

ubj_write-run_test_example :
    run_test min_type true ubjw (λ size. true) 0 false nils 15373
    ≡ some (true, hash_str 15373 (trace ubjw (λ size. true) 0 (calls min_type true nils)))
ubj_write-run_test_example =
    ubj_write-run_test min_type true ubjw (λ size. true) 0 nils 15373 short (λ size. refl)
      (λ l c. refl)

abbrev nil_children : Elements
nil_children = element nil (element nil no_elements)

abbrev no_children : Entries
no_children = no_entries

type_of_container_iff_example :
    ((type_of_elements min_type nil_children ≡ ubj_nulltype) ↔ (
      (2 ≤ length (element_types min_type nil_children))
      × All (λ u. u ≡ ubj_nulltype) (element_types min_type nil_children)))
    × ((type_of_entries min_type no_children ≡ ubj_nulltype) ↔ (
        (2 ≤ length (entry_types min_type no_children))
        × All (λ u. u ≡ ubj_nulltype) (entry_types min_type no_children)))
type_of_container_iff_example =
    type_of_container_iff min_type ubj_nulltype nil_children no_children (λ e. absurd cc)
