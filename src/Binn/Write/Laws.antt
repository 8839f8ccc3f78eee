-- ===== src/Binn/Write/Laws.antt =====
-- What binn-write.c stores for an object of the generator.
use schemaless_benchmarks.Base.{ℕ, ◌≡◌, ◌≢◌, refl, ap, All, true, some, List, [], ◌∷◌}
use schemaless_benchmarks.Hash.{hash_str}
use schemaless_benchmarks.Object.{
  Object, Elements, Entries, nil, bool, double, int, uint, str, array, map, no_elements, element,
  no_entries, entry,
}
use schemaless_benchmarks.Object.Valid.{IsValid}
use schemaless_benchmarks.Object.Append.{
  append_elements, append_entries, append_elements-none, append_entries-none, append_elements_assoc,
  append_entries_assoc, IsFresh, IsFresh-append, c_str-IsCharacter,
}
use schemaless_benchmarks.Generator.Init.Generated.{
  IsKey, IsGenerated, AreGenerated, AreGeneratedEntries, IsGenerated-IsValid,
}
use schemaless_benchmarks.Generator.Text.Keys.{IsLowercase-IsCharacter}
use schemaless_benchmarks.Parser.{c_str}
use schemaless_benchmarks.Writer.{Writing}
use schemaless_benchmarks.Writer.Yields.{Yields, then-Yields}
use schemaless_benchmarks.Binn.Write.{
  of_null, of_bool, of_double, of_int64, of_uint64, of_str, Binn, attach, add_element, write_list,
  set_entry, write_object, write_root, run_test,
}
use schemaless_benchmarks.Binn.Write.Library.{Keeps, Holds, IsContainer}

attach-Yields :
    {B : Type 0} (write : Writing B) (empty : B) (Middle : B → Type 0) (add : B → Writing B) (b : B)
    (After : B → Type 0)
    → Yields write empty Middle
    → ((child : B) → Middle child → Yields (add child) b After)
    → Yields (attach (write empty) add) b After
attach-Yields write empty Middle add b After (child, e, p) rest =
    let (b', e', q) = rest child p in (b', rw e e', q)

-- What has been put behind some children, from the first to the last.
abbrev AddsElements : {B : Type 0} (binn : Binn B) → Keeps binn → Writing B → Elements → Type 0
AddsElements binn keeps m xs =
    (b : _) (before : Elements)
    → keeps.HoldsList b before
    → Yields m b (λ b'. keeps.HoldsList b' (append_elements before xs))

-- The same for the entries of a map that has the keys `used`.
abbrev AddsEntries :
    {B : Type 0} (binn : Binn B) → Keeps binn → List (List ℕ) → Writing B → Entries → Type 0
AddsEntries binn keeps used m es =
    (b : _) (before : Entries)
    → ((k : List ℕ) → All (λ j. k ≢ j) used → IsFresh k before)
    → keeps.HoldsObject b before
    → Yields m b (λ b'. keeps.HoldsObject b' (append_entries before es))

module _ {B : Type 0} (binn : Binn B) (keeps : Keeps binn) where
  mutual
    unfolding add_element IsGenerated IsValid append_elements append_entries IsFresh

    element-Adds :
        (x : Object)
        → IsGenerated x
        → AddsElements binn keeps (add_element binn x) (element x no_elements)
    element-Adds nil g b before h = keeps.list_added of_null b before tt h
    element-Adds (bool x) g b before h = keeps.list_added (of_bool x) b before tt h
    element-Adds (double x) g b before h = keeps.list_added (of_double x) b before tt h
    element-Adds (int x) g b before h = keeps.list_added (of_int64 x) b before g h
    element-Adds (uint x) g b before h = keeps.list_added (of_uint64 x) b before g h
    element-Adds (str s) g b before h =
        let valid = IsGenerated-IsValid (str s) g in
        rw (c_str-IsCharacter s valid) (keeps.list_added (of_str s) b before valid h)
    element-Adds (array xs) g b before h =
        attach-Yields (write_list binn xs) binn.create_list (λ c. keeps.HoldsList c xs)
          binn.list_add_object b
          (λ b'. keeps.HoldsList b' (append_elements before (element (array xs) no_elements)))
          (list-Adds xs g.1 binn.create_list no_elements keeps.list_starts)
          (λ child held. keeps.list_added_list child b xs before held h)
    element-Adds (map es) g b before h =
        attach-Yields (write_object binn es) binn.create_object (λ c. keeps.HoldsObject c es)
          binn.list_add_object b
          (λ b'. keeps.HoldsList b' (append_elements before (element (map es) no_elements)))
          (object-Adds es [] g.1 binn.create_object no_entries (λ k other. tt) keeps.object_starts)
          (λ child held. keeps.list_added_object child b es before held h)

    list-Adds : (xs : Elements) → AreGenerated xs → AddsElements binn keeps (write_list binn xs) xs
    list-Adds no_elements g b before h = (b, refl, rw (append_elements-none before) h)
    list-Adds (element x xs) g b before h =
        then-Yields (add_element binn x) (write_list binn xs) b
          (λ b'. keeps.HoldsList b' (append_elements before (element x no_elements)))
          (λ b'. keeps.HoldsList b' (append_elements before (element x xs)))
          (element-Adds x g.0 b before h)
          (λ b' h'.
            let rest = list-Adds xs g.1 b' (append_elements before (element x no_elements)) h' in
            rw (append_elements_assoc before (element x no_elements) xs) at rest)

    entry-Adds :
        (k : List ℕ) (x : Object) (used : List (List ℕ))
        → IsKey k
        → All (λ j. k ≢ j) used
        → IsGenerated x
        → AddsEntries binn keeps used (set_entry binn k x) (entry k x no_entries)
    entry-Adds k nil used named other g b before fresh h =
        keeps.object_set_value k of_null b before named (fresh k other) tt h
    entry-Adds k (bool x) used named other g b before fresh h =
        keeps.object_set_value k (of_bool x) b before named (fresh k other) tt h
    entry-Adds k (double x) used named other g b before fresh h =
        keeps.object_set_value k (of_double x) b before named (fresh k other) tt h
    entry-Adds k (int x) used named other g b before fresh h =
        keeps.object_set_value k (of_int64 x) b before named (fresh k other) g h
    entry-Adds k (uint x) used named other g b before fresh h =
        keeps.object_set_value k (of_uint64 x) b before named (fresh k other) g h
    entry-Adds k (str s) used named other g b before fresh h =
        let valid = IsGenerated-IsValid (str s) g in
        rw (c_str-IsCharacter s valid)
          (keeps.object_set_value k (of_str s) b before named (fresh k other) valid h)
    entry-Adds k (array xs) used named other g b before fresh h =
        attach-Yields (write_list binn xs) binn.create_list (λ c. keeps.HoldsList c xs)
          (binn.object_set_object k) b
          (λ b'. keeps.HoldsObject b' (append_entries before (entry k (array xs) no_entries)))
          (list-Adds xs g.1 binn.create_list no_elements keeps.list_starts)
          (λ child held. keeps.object_set_list k child b xs before named (fresh k other) held h)
    entry-Adds k (map es) used named other g b before fresh h =
        attach-Yields (write_object binn es) binn.create_object (λ c. keeps.HoldsObject c es)
          (binn.object_set_object k) b
          (λ b'. keeps.HoldsObject b' (append_entries before (entry k (map es) no_entries)))
          (object-Adds es [] g.1 binn.create_object no_entries (λ j others. tt) keeps.object_starts)
          (λ child held. keeps.object_set_map k child b es before named (fresh k other) held h)

    object-Adds :
        (es : Entries) (used : List (List ℕ))
        → AreGeneratedEntries used es
        → AddsEntries binn keeps used (write_object binn es) es
    object-Adds no_entries used g b before fresh h = (b, refl, rw (append_entries-none before) h)
    object-Adds (entry k x es) used g b before fresh h =
        let plain = c_str-IsCharacter k (IsLowercase-IsCharacter k g.0.0) in
        then-Yields (set_entry binn (c_str k) x) (write_object binn es) b
          (λ b'. keeps.HoldsObject b' (append_entries before (entry k x no_entries)))
          (λ b'. keeps.HoldsObject b' (append_entries before (entry k x es)))
          (rw plain (entry-Adds k x used g.0 g.1 g.2 b before fresh h))
          (λ b' h'.
            let rest =
              object-Adds es (k ∷ used) g.3 b' (append_entries before (entry k x no_entries))
                (λ j others. IsFresh-append j k x before others.0 (fresh j others.1)) h' in
            rw (append_entries_assoc before (entry k x no_entries) es) at rest)

-- For each array or map that the generator can make, all calls succeed, and the root `binn` holds exactly its
-- children.
pub write_root-Holds :
    {B : Type 0} (binn : Binn B) (keeps : Keeps binn) (o : Object)
    → IsGenerated o
    → IsContainer o
    → (b : B) × (write_root binn o ≡ some (true, b)) × Holds keeps b o
unfolding write_root IsGenerated append_elements append_entries IsFresh
write_root-Holds binn keeps (array xs) g c =
    let (b, e, h) = list-Adds binn keeps xs g.1 binn.create_list no_elements keeps.list_starts in
    (b, ap (λ w. some w) e, h)
write_root-Holds binn keeps (map es) g c =
    let (b, e, h) =
      object-Adds binn keeps es [] g.1 binn.create_object no_entries (λ k other. tt)
        keeps.object_starts in
    (b, ap (λ w. some w) e, h)
write_root-Holds binn keeps nil g c = absurd c
write_root-Holds binn keeps (bool x) g c = absurd c
write_root-Holds binn keeps (double x) g c = absurd c
write_root-Holds binn keeps (int x) g c = absurd c
write_root-Holds binn keeps (uint x) g c = absurd c
write_root-Holds binn keeps (str x) g c = absurd c

-- For each array or map that the generator can make, `run_test` succeeds with the hash of the bytes of a `binn`
-- that holds exactly its children, if the library keeps the children that it is given under keys like
-- those of the generator.
pub run_test-binn_write :
    {B : Type 0} (binn : Binn B) (keeps : Keeps binn) (root_object : Object) (hash : ℕ)
    → IsGenerated root_object
    → IsContainer root_object
    → (b : B) × (run_test binn root_object hash ≡ some (true, hash_str hash (binn.bytes b)))
      × Holds keeps b root_object
unfolding run_test
run_test-binn_write binn keeps root_object hash g c =
    let (b, e, h) = write_root-Holds binn keeps root_object g c in (b, rw (run_test, e) refl, h)
