-- ===== src/Json/Builder/Generous.antt =====
-- What json-builder makes of an object that it can hold, where every allocation succeeds.
use schemaless_benchmarks.Base.{
  ℕ, ◌-◌, ◌^◌, ◌≡◌, refl, arith, Bool, Bool-cases, true, inl, inr, Option, some, List, leb, ℤ, pos,
  length, take, take-length, ap, sym, ◌∙◌,
}
use schemaless_benchmarks.Hash.{hash_str}
use schemaless_benchmarks.Object.{
  Object, Elements, Entries, nil, bool, double, int, uint, str, array, map, no_elements, element,
  no_entries, entry, count_elements, count_entries,
}
use schemaless_benchmarks.Json.Builder.{
  Making, Builder, fill, push, create_value, push_elements, push_entries, hash_text, run_test,
}
use schemaless_benchmarks.Json.Builder.Laws.{IsSmall, AreSmall, AreSmallEntries}

-- The function returns a value.
abbrev pub Gives : {V W : Type 0} → Option V × W → Type 0
Gives {V} {W} made = (value : V) × (w : W) × (made ≡ (some value, w))

-- No call fails, and a value is measured as long as what is written for it.
pub record IsGenerous {V W : Type 0} (json : Builder V W) : Type 0 where
  pub booleans : (b : Bool) (w : W) → Gives (json.boolean_new b w)
  pub nulls : (w : W) → Gives (json.null_new w)
  pub integers : (i : ℤ) (w : W) → Gives (json.integer_new i w)
  pub doubles : (d : ℕ) (w : W) → Gives (json.double_new d w)
  pub strings : (s : List ℕ) (w : W) → Gives (json.string_new_length s w)
  pub arrays : (n : ℕ) (w : W) → Gives (json.array_new n w)
  pub objects : (n : ℕ) (w : W) → Gives (json.object_new n w)
  pub array_pushes : (parent child : V) (w : W) → (json.array_push parent child w).0 ≡ true
  pub object_pushes :
      (parent : V) (k : List ℕ) (child : V) (w : W)
      → (json.object_push_length parent k child w).0 ≡ true
  pub blocks : (size : ℕ) (w : W) → (json.malloc size w).0 ≡ true
  pub measured :
      (value : V) (w : W)
      → length (json.serialize value (json.malloc (json.measure value w) w).1)
        ≡ json.measure value w

module _ {V W : Type 0} (json : Builder V W) where
  fill-Gives :
      (made : Option V × W) (k : V → Making V W)
      → Gives made
      → ((parent : V) (w : W) → Gives (k parent w))
      → Gives (fill json made k)
  fill-Gives made k (parent, w, e) gives = rw e (gives parent w)

  push-Gives :
      (parent : V) (made : Option V × W) (pushed : V → W → Bool × W) (k : Making V W)
      → Gives made
      → ((child : V) (w : W) → (pushed child w).0 ≡ true)
      → ((w : W) → Gives (k w))
      → Gives (push json parent made pushed k)
  push-Gives parent made pushed k (child, w, e) takes gives =
      rw (e, takes child w) (gives (pushed child w).1)

module _ {V W : Type 0} (json : Builder V W) (generous : IsGenerous json) where
  mutual
    unfolding create_value IsSmall

    object-Gives : (o : Object) → IsSmall o → (w : W) → Gives (create_value json o w)
    object-Gives nil small w = generous.nulls w
    object-Gives (bool b) small w = generous.booleans b w
    object-Gives (double d) small w = generous.doubles d w
    object-Gives (int i) small w = generous.integers i w
    object-Gives (uint u) small w = elim (Bool-cases (leb u (2 ^ 63 - 1))) [
      | inl e ↦ rw e (generous.integers (pos u) w)
      | inr large ↦ absurd (ground (arith, large, small))
    ]
    object-Gives (str s) small w = generous.strings s w
    object-Gives (array xs) small w =
        fill-Gives json (json.array_new (count_elements xs) w)
          (λ parent v. push_elements json parent xs v) (generous.arrays (count_elements xs) w)
          (λ parent v. elements-Gives xs small parent v)
    object-Gives (map es) small w =
        fill-Gives json (json.object_new (count_entries es) w)
          (λ parent v. push_entries json parent es v) (generous.objects (count_entries es) w)
          (λ parent v. entries-Gives es small parent v)

    elements-Gives :
        (xs : Elements)
        → AreSmall xs
        → (parent : V) (w : W) → Gives (push_elements json parent xs w)
    elements-Gives no_elements small parent w = (parent, w, refl)
    elements-Gives (element x xs) small parent w =
        push-Gives json parent (create_value json x w) (json.array_push parent)
          (λ v. push_elements json parent xs v) (object-Gives x small.0 w)
          (generous.array_pushes parent) (λ v. elements-Gives xs small.1 parent v)

    entries-Gives :
        (es : Entries)
        → AreSmallEntries es
        → (parent : V) (w : W) → Gives (push_entries json parent es w)
    entries-Gives no_entries small parent w = (parent, w, refl)
    entries-Gives (entry k x es) small parent w =
        push-Gives json parent (create_value json x w) (json.object_push_length parent k)
          (λ v. push_entries json parent es v) (object-Gives x small.0 w)
          (generous.object_pushes parent k) (λ v. entries-Gives es small.1 parent v)

-- If every call succeeds, `json_measure_ex` gives the length of what is written, and no unsigned number in the object
-- is above INT64_MAX, then `create_value` returns a value, and `run_test` returns true with the hash of all bytes
-- that json-builder writes for it, no fewer and no more.
pub run_test-IsSmall :
    {V W : Type 0} (json : Builder V W) (root_object : Object) (hash : ℕ) (w : W)
    → IsGenerous json
    → IsSmall root_object
    → (value : V) × (w' : W) × (create_value json root_object w ≡ (some value, w'))
      × ((run_test json root_object hash w).0 ≡ true)
      × ((run_test json root_object hash w).1
          ≡ hash_str hash (json.serialize value (json.malloc (json.measure value w') w').1))
unfolding run_test hash_text
run_test-IsSmall json root_object hash w generous small =
    let (value, w', e) = object-Gives json generous root_object small w in
    let block = generous.blocks (json.measure value w') w' in
    let bytes = json.serialize value (json.malloc (json.measure value w') w').1 in
    let all_bytes : take (json.measure value w') bytes ≡ bytes =
      ap (λ len. take len bytes) (sym (generous.measured value w')) ∙ take-length bytes in
    (
      value,
      w',
      e,
      rw (run_test, e, hash_text, block) refl,
      rw (run_test, e, hash_text, block, all_bytes) refl,
    )
