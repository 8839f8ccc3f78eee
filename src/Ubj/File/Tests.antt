-- ===== src/Ubj/File/Tests.antt =====
-- Files of a list with and without a number that is too large.
use schemaless_benchmarks.Base.{ℕ, ◌^◌, ◌≡◌, refl, arith, true, false, List, [], ◌∷◌, ◌++◌}
use schemaless_benchmarks.Object.{nil, uint, array, Object, Elements, no_elements, element}
use schemaless_benchmarks.Object.Append.{append_elements}
use schemaless_benchmarks.Object.Valid.{IsValid}
use schemaless_benchmarks.Benchmark.Load.Laws.{with_file}
use schemaless_benchmarks.Benchmark.Load.Samples.{nothing_held}
use schemaless_benchmarks.Benchmark.Store.{Disk, reading}
use schemaless_benchmarks.Benchmark.Store.Samples.{roomy, blank}
use schemaless_benchmarks.Ubj.Read as Read
use schemaless_benchmarks.Ubj.Write.{Call}
use schemaless_benchmarks.Ubj.Write.Document.{calls}
use schemaless_benchmarks.Ubj.Write.Samples.{min_type}
use schemaless_benchmarks.Ubj.File.{FileWriter, write_object, setup_test}
use schemaless_benchmarks.Ubj.File.Laws.{issue_all, write_object-ubj_write, write_object-leaves_out}
use schemaless_benchmarks.Ubj.File.Stored.{bytes_of, setup_test-ubj_file}

abbrev add_byte : Call → List ℕ → List ℕ
add_byte c l = l ++ 1 ∷ []

abbrev writer : FileWriter (List ℕ)
writer = record { open_file = []; perform = add_byte; contents = λ l. l }

abbrev object : Object
object = array (element nil (element (uint 7) no_elements))

object-IsValid : IsValid object
unfolding IsValid
object-IsValid = (tt, (omega arith, tt))

write_object-ubj_write_example :
    write_object min_type add_byte true object []
    ≡ (true, issue_all add_byte (calls min_type true object) [])
write_object-ubj_write_example =
    write_object-ubj_write min_type true add_byte object [] object-IsValid

setup_test-ubj_file_example :
    (written : Disk) × (setup_test min_type writer roomy object 3 blank ≡ (true, written))
    × (written.open_files ≡ 0)
    × (Read.setup_test (reading roomy written) true 3 nothing_held
        ≡ (true, with_file (bytes_of min_type writer object true) nothing_held))
    × (Read.setup_test (reading roomy written) false 3 nothing_held
        ≡ (true, with_file (bytes_of min_type writer object false) nothing_held))
setup_test-ubj_file_example =
    setup_test-ubj_file min_type writer roomy object 3 blank nothing_held object-IsValid (record {
      room = λ sized bytes. record { opened = refl; stored = refl; delivered = refl };
      first = 51;
      others = [];
      spelled = refl;
      digit = omega arith;
    })

abbrev front : Elements
front = element nil no_elements

write_object-leaves_out_example :
    ((write_object min_type add_byte false
        (array (append_elements front (element (uint (2 ^ 63)) no_elements)))
        []).0
      ≡ true)
    × (write_object min_type add_byte false
          (array (append_elements front (element (uint (2 ^ 63)) no_elements)))
          []
        ≡ write_object min_type add_byte false (array (append_elements front no_elements)) [])
write_object-leaves_out_example =
    write_object-leaves_out min_type add_byte (2 ^ 63) front no_elements [] (omega arith)
