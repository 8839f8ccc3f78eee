-- ===== src/Json/Builder/Laws.antt =====
-- Which objects json-builder can hold.
use schemaless_benchmarks.Base.{
  ℕ, ◌-◌, ◌^◌, ◌≤◌, ◌<◌, ◌≡◌, refl, arith, Bool, Bool-cases, false, inl, inr, Option, none, some,
  List, leb, leb→le,
}
use schemaless_benchmarks.Object.{
  Object, Elements, Entries, uint, array, map, no_elements, element, no_entries, entry,
  count_elements, count_entries,
}
use schemaless_benchmarks.Json.Builder.{
  Making, Builder, fill, push, create_value, push_elements, push_entries, hash_text, run_test,
}

-- Somewhere in the object is an unsigned number above INT64_MAX.
mutual
  pub data TooLarge : Object → Type 0 where
    here : (u : ℕ) → 2 ^ 63 ≤ u → TooLarge (uint u)
    in_array : (xs : Elements) → TooLargeElement xs → TooLarge (array xs)
    in_map : (es : Entries) → TooLargeEntry es → TooLarge (map es)

  pub data TooLargeElement : Elements → Type 0 where
    this_element : (x : Object) (xs : Elements) → TooLarge x → TooLargeElement (element x xs)
    later_element :
        (x : Object) (xs : Elements) → TooLargeElement xs → TooLargeElement (element x xs)

  pub data TooLargeEntry : Entries → Type 0 where
    this_entry :
        (k : List ℕ) (x : Object) (es : Entries) → TooLarge x → TooLargeEntry (entry k x es)
    later_entry :
        (k : List ℕ) (x : Object) (es : Entries) → TooLargeEntry es → TooLargeEntry (entry k x es)

-- No unsigned number in the object is above INT64_MAX.
unfoldable mutual
  pub IsSmall : Object → Type 0
  IsSmall (uint u) = u < 2 ^ 63
  IsSmall (array xs) = AreSmall xs
  IsSmall (map es) = AreSmallEntries es
  IsSmall _ = Unit

  pub AreSmall : Elements → Type 0
  AreSmall no_elements = Unit
  AreSmall (element x xs) = IsSmall x × AreSmall xs

  pub AreSmallEntries : Entries → Type 0
  AreSmallEntries no_entries = Unit
  AreSmallEntries (entry k x es) = IsSmall x × AreSmallEntries es

module _ {V W : Type 0} (json : Builder V W) where
  -- A function that returns null from every state.
  abbrev Fails : Making V W → Type 0
  Fails m = (w : W) → (m w).0 ≡ none

  fill-Fails :
      (made : Option V × W) (k : V → Making V W)
      → ((parent : V) → Fails (k parent))
      → (fill json made k).0 ≡ none
  fill-Fails (none, w) k fails = refl
  fill-Fails (some parent, w) k fails = fails parent w

  push_null :
      (parent : V) (made : Option V × W) (pushed : V → W → Bool × W) (k : Making V W)
      → made.0 ≡ none
      → (push json parent made pushed k).0 ≡ none
  push_null parent (none, w) pushed k e = refl
  push_null parent (some child, w) pushed k e = absurd cc

  push-Fails :
      (parent : V) (made : Option V × W) (pushed : V → W → Bool × W) (k : Making V W)
      → Fails k
      → (push json parent made pushed k).0 ≡ none
  push-Fails parent (none, w) pushed k fails = refl
  push-Fails parent (some child, w) pushed k fails = elim (Bool-cases (pushed child w).0) [
    | inl ok ↦ rw ok (fails (pushed child w).1)
    | inr bad ↦ rw bad refl
  ]

  mutual
    unfolding create_value

    object-Fails : (o : Object) → TooLarge o → Fails (create_value json o)
    object-Fails _ (here u large) w = elim (Bool-cases (leb u (2 ^ 63 - 1))) [
      | inl small ↦ absurd (let p = leb→le u (2 ^ 63 - 1) small in omega arith)
      | inr e ↦ rw e refl
    ]
    object-Fails _ (in_array xs large) w =
        fill-Fails (json.array_new (count_elements xs) w)
          (λ parent v. push_elements json parent xs v) (λ parent. elements-Fails xs large parent)
    object-Fails _ (in_map es large) w =
        fill-Fails (json.object_new (count_entries es) w)
          (λ parent v. push_entries json parent es v) (λ parent. entries-Fails es large parent)

    elements-Fails :
        (xs : Elements)
        → TooLargeElement xs
        → (parent : V) → Fails (λ w. push_elements json parent xs w)
    elements-Fails _ (this_element x xs large) parent w =
        push_null parent (create_value json x w) (json.array_push parent)
          (λ v. push_elements json parent xs v) (object-Fails x large w)
    elements-Fails _ (later_element x xs large) parent w =
        push-Fails parent (create_value json x w) (json.array_push parent)
          (λ v. push_elements json parent xs v) (elements-Fails xs large parent)

    entries-Fails :
        (es : Entries)
        → TooLargeEntry es
        → (parent : V) → Fails (λ w. push_entries json parent es w)
    entries-Fails _ (this_entry k x es large) parent w =
        push_null parent (create_value json x w) (json.object_push_length parent k)
          (λ v. push_entries json parent es v) (object-Fails x large w)
    entries-Fails _ (later_entry k x es large) parent w =
        push-Fails parent (create_value json x w) (json.object_push_length parent k)
          (λ v. push_entries json parent es v) (entries-Fails es large parent)

  null_text :
      (made : Option V × W) (hash : ℕ)
      → made.0 ≡ none
      → hash_text json made hash ≡ (false, hash, made.1)
  unfolding hash_text
  null_text (none, w) hash e = refl
  null_text (some value, w) hash e = absurd cc

-- If an unsigned number above INT64_MAX is anywhere in the object, then `run_test` returns false and keeps the
-- hash, for every behaviour of json-builder.
pub run_test-TooLarge :
    {V W : Type 0} (json : Builder V W) (root_object : Object) (hash : ℕ) (w : W)
    → TooLarge root_object
    → ((run_test json root_object hash w).0 ≡ false) × ((run_test json root_object hash w).1 ≡ hash)
unfolding run_test
run_test-TooLarge json root_object hash w large =
    let null = object-Fails json root_object large w in
    rw (null_text json (create_value json root_object w) hash null) (refl, refl)
