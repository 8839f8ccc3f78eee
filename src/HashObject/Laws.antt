-- ===== src/HashObject/Laws.antt =====
-- The hash of an object as a map on hashes, and what it does not tell apart.
use schemaless_benchmarks.Base.{
  ℕ, ◌^◌, ◌<◌, ◌≡◌, refl, ◌∙◌, ap, sym, arith, All, List, [], ◌∷◌, u32, u64, ◌>>>◌, pos, suc,
}
use schemaless_benchmarks.Hash.{hash_u32, hash_u64, hash_i64, hash_str}
use schemaless_benchmarks.Hash.Words.{IsBytes}
use schemaless_benchmarks.Hash.Laws.{
  IsInjection, IsInjection-id, IsInjection-comp, hash_u32-IsInjection, hash_u64-IsInjection,
  hash_i64-IsInjection, hash_bool-IsInjection, hash_double-IsInjection, hash_str-IsInjection,
  hash_nil-IsInjection,
}
use schemaless_benchmarks.Object.{
  Object, Elements, Entries, nil, bool, double, int, uint, str, array, map, no_elements, element,
  no_entries, entry, count_elements, count_entries,
}
use schemaless_benchmarks.Object.Valid.{IsCharacter, IsValid, AreValid, AreValidEntries}
use schemaless_benchmarks.HashObject.{hash_object, hash_elements, hash_entries}

IsCharacter-IsBytes : (s : List ℕ) → All IsCharacter s → IsBytes s
IsCharacter-IsBytes [] h = tt
IsCharacter-IsBytes (b ∷ s) h = (h.0.1, IsCharacter-IsBytes s h.1)

mutual
  unfolding hash_object IsValid

  object-IsInjection : (o : Object) → IsValid o → IsInjection (hash_object o)
  object-IsInjection nil v = hash_nil-IsInjection
  object-IsInjection (bool b) v = hash_bool-IsInjection b
  object-IsInjection (double d) v = hash_double-IsInjection d
  object-IsInjection (int i) v = hash_i64-IsInjection i
  object-IsInjection (uint u) v = hash_u64-IsInjection u
  object-IsInjection (str s) v = hash_str-IsInjection s (IsCharacter-IsBytes s v)
  object-IsInjection (array xs) v =
      IsInjection-comp (hash_elements xs) (λ h. hash_u32 h (u32 (count_elements xs)))
        (elements-IsInjection xs v) (hash_u32-IsInjection (u32 (count_elements xs)) (omega arith))
  object-IsInjection (map es) v =
      IsInjection-comp (hash_entries es) (λ h. hash_u32 h (u32 (count_entries es)))
        (entries-IsInjection es v) (hash_u32-IsInjection (u32 (count_entries es)) (omega arith))

  elements-IsInjection : (xs : Elements) → AreValid xs → IsInjection (hash_elements xs)
  elements-IsInjection no_elements v = IsInjection-id
  elements-IsInjection (element x xs) v =
      IsInjection-comp (hash_object x) (hash_elements xs) (object-IsInjection x v.0)
        (elements-IsInjection xs v.1)

  entries-IsInjection : (es : Entries) → AreValidEntries es → IsInjection (hash_entries es)
  entries-IsInjection no_entries v = IsInjection-id
  entries-IsInjection (entry k x es) v =
      IsInjection-comp (λ h. hash_str h k) (λ h. hash_entries es (hash_object x h))
        (hash_str-IsInjection k (IsCharacter-IsBytes k v.0))
        (IsInjection-comp (hash_object x) (hash_entries es) (object-IsInjection x v.1)
          (entries-IsInjection es v.2))

-- For a valid object, two 32-bit hashes into which hashing it gives the same hash are the same.
pub hash_object-injective :
    (o : Object) (a b : ℕ)
    → IsValid o
    → a < 2 ^ 32
    → b < 2 ^ 32
    → hash_object o a ≡ hash_object o b
    → a ≡ b
hash_object-injective o a b v p q e = (object-IsInjection o v).injective a b p q e

-- The object with every unsigned number read as a signed one, as formats without unsigned numbers
-- give it back.
unfoldable mutual
  pub canonical : Object → Object
  canonical nil = nil
  canonical (bool b) = bool b
  canonical (double d) = double d
  canonical (int i) = int i
  canonical (uint u) = int (pos u)
  canonical (str s) = str s
  canonical (array xs) = array (canonical_elements xs)
  canonical (map es) = map (canonical_entries es)

  pub canonical_elements : Elements → Elements
  canonical_elements no_elements = no_elements
  canonical_elements (element x xs) = element (canonical x) (canonical_elements xs)

  pub canonical_entries : Entries → Entries
  canonical_entries no_entries = no_entries
  canonical_entries (entry k x es) = entry k (canonical x) (canonical_entries es)

mutual
  unfolding canonical

  count-canonical_elements :
      (xs : Elements) → count_elements (canonical_elements xs) ≡ count_elements xs
  count-canonical_elements no_elements = refl
  count-canonical_elements (element x xs) = ap suc (count-canonical_elements xs)

  count-canonical_entries : (es : Entries) → count_entries (canonical_entries es) ≡ count_entries es
  count-canonical_entries no_entries = refl
  count-canonical_entries (entry k x es) = ap suc (count-canonical_entries es)

-- A signed and an unsigned number with the same bits have the same hash.
pub hash_i64-pos : (h u : ℕ) → hash_i64 h (pos u) ≡ hash_u64 h u
unfolding hash_i64 hash_u64
hash_i64-pos h u =
    let high : u32 (u64 u >>> 32) ≡ u32 (u >>> 32) = omega arith in
    let low : u32 (u64 u) ≡ u32 u = omega arith in rw (high, low)

mutual
  unfolding hash_object canonical

  hash-canonical : (o : Object) (h : ℕ) → hash_object (canonical o) h ≡ hash_object o h
  hash-canonical nil h = refl
  hash-canonical (bool b) h = refl
  hash-canonical (double d) h = refl
  hash-canonical (int i) h = refl
  hash-canonical (uint u) h = hash_i64-pos h u
  hash-canonical (str s) h = refl
  hash-canonical (array xs) h = rw (count-canonical_elements, hash-canonical_elements xs h)
  hash-canonical (map es) h = rw (count-canonical_entries, hash-canonical_entries es h)

  hash-canonical_elements :
      (xs : Elements) (h : ℕ) → hash_elements (canonical_elements xs) h ≡ hash_elements xs h
  hash-canonical_elements no_elements h = refl
  hash-canonical_elements (element x xs) h =
      rw (hash-canonical x h) (hash-canonical_elements xs (hash_object x h))

  hash-canonical_entries :
      (es : Entries) (h : ℕ) → hash_entries (canonical_entries es) h ≡ hash_entries es h
  hash-canonical_entries no_entries h = refl
  hash-canonical_entries (entry k x es) h =
      rw (hash-canonical x (hash_str h k))
        (hash-canonical_entries es (hash_object x (hash_str h k)))

-- Reading unsigned numbers as signed ones does not change an object's hash.
pub hash_object-canonical : (o : Object) (h : ℕ) → hash_object (canonical o) h ≡ hash_object o h
hash_object-canonical o h = hash-canonical o h

-- Objects that differ only in which numbers are unsigned have the same hash.
pub same_hash :
    (o o' : Object) (h : ℕ) → canonical o ≡ canonical o' → hash_object o h ≡ hash_object o' h
same_hash o o' h e =
    sym (hash_object-canonical o h) ∙ (ap (λ x. hash_object x h) e ∙ hash_object-canonical o' h)
