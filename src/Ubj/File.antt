-- ===== src/Ubj/File.antt =====
-- src/ubj/ubj-file.c: `write_object` and the functions that write the two data files. The text of `get_ubj_type` and
-- of the loops that find a container's type is that of src/ubj/ubj-write.c.
pub mod Laws
pub mod Stored
mod Tests
use schemaless_benchmarks.Base.{
  ℕ, ◌-◌, ◌^◌, Bool, true, false, ltb, Option, none, some, List, if◌then◌else◌, ℤ,
}
use schemaless_benchmarks.Generator.Init.{to_signed}
use schemaless_benchmarks.Object.{
  Object, Elements, Entries, nil, bool, double, int, uint, str, array, map, no_elements, element,
  no_entries, entry, count_elements, count_entries,
}
use schemaless_benchmarks.Parser.{c_str}
use schemaless_benchmarks.Benchmark.Load.{benchmark_filename, format_ubjson, unopt}
use schemaless_benchmarks.Benchmark.Store.{Disk, Stdio, put_file}
use schemaless_benchmarks.Ubj.Write.{
  UbjType, ubj_mixed, Call, write_null, write_bool, write_float64, write_integer, write_string,
  begin_array, begin_object, write_key, end_container,
}
use schemaless_benchmarks.Ubj.Write as Write

-- The library with a context on a file: what a call does to it, and what it has written when it is closed. It has no
-- way to report an error.
pub record FileWriter (L : Type 0) : Type 0 where
  pub open_file : L
  pub perform : Call → L → L
  pub contents : L → List ℕ

module _ (min_type : ℤ → UbjType) where
  abbrev pub get_ubj_type : Object → UbjType
  get_ubj_type = Write.get_ubj_type min_type

  abbrev pub type_of_elements : Elements → UbjType
  type_of_elements = Write.type_of_elements min_type

  abbrev pub type_of_entries : Entries → UbjType
  type_of_entries = Write.type_of_entries min_type

  module _ {L : Type 0} (perform : Call → L → L) (sized : Bool) where
    -- A number above INT64_MAX is refused; what the calls for children return is thrown away.
    unfoldable mutual
      pub write_object : Object → L → Bool × L
      write_object nil dst = (true, perform write_null dst)
      write_object (bool x) dst = (true, perform (write_bool x) dst)
      write_object (double x) dst = (true, perform (write_float64 x) dst)
      write_object (int x) dst = (true, perform (write_integer x) dst)
      write_object (str s) dst = (true, perform (write_string (c_str s)) dst)
      write_object (uint x) dst =
          if ltb (2 ^ 63 - 1) x
          then (false, dst)
          else (true, perform (write_integer (to_signed x)) dst)
      write_object (array xs) dst =
          let opened =
            perform
              (if sized
                then begin_array (type_of_elements xs) (count_elements xs)
                else begin_array ubj_mixed 0)
              dst in
          (true, perform end_container (write_elements xs opened))
      write_object (map es) dst =
          let opened =
            perform
              (if sized
                then begin_object (type_of_entries es) (count_entries es)
                else begin_object ubj_mixed 0)
              dst in
          (true, perform end_container (write_entries es opened))

      pub write_elements : Elements → L → L
      write_elements no_elements dst = dst
      write_elements (element x xs) dst = write_elements xs (write_object x dst).1

      pub write_entries : Entries → L → L
      write_entries no_entries dst = dst
      write_entries (entry k x es) dst =
          write_entries es (write_object x (perform (write_key (c_str k)) dst)).1

  abbrev pub config : Bool → Option (List ℕ)
  config sized = if sized then none else some unopt

  module _ {L : Type 0} (writer : FileWriter L) (stdio : Stdio) where
    -- `object` is what `benchmark_object_create(object_size)` gives. Closing the context closes the file.
    unfoldable pub write_file : Object → ℕ → Bool → Disk → Bool × Disk
    write_file object object_size sized disk =
        let filename =
          benchmark_filename stdio.decimal 64 object_size format_ubjson (config sized) in
        if stdio.opens filename
        then (let (ok, dst) = write_object writer.perform sized object writer.open_file in
            (ok, put_file filename (writer.contents dst) disk))
        else (false, disk)

    unfoldable pub setup_test : Object → ℕ → Disk → Bool × Disk
    setup_test object object_size disk =
        let (first_ok, first) = write_file object object_size true disk in
        if first_ok
        then (let (second_ok, second) = write_file object object_size false first in
            if second_ok then (true, second) else (false, second))
        else (false, first)
