-- ===== src/Parser/Agrees.antt =====
-- A parser's hash against the reference hash: one rule for each way to put values together.
use schemaless_benchmarks.Base.{
  ℕ, suc, ◌≡◌, refl, ap, arith, Bool, true, false, Option, none, some, List, u32,
}
use schemaless_benchmarks.Hash.{hash_u32, hash_str}
use schemaless_benchmarks.HashObject.{hash_object, hash_elements, hash_entries}
use schemaless_benchmarks.Object.{Object, Elements, Entries, count_elements, count_entries}
use schemaless_benchmarks.Parser.{
  Hashing, update, ◌>>◌, Items, Members, no_items, item, no_members, member, item_count,
  member_count, array_of, map_of, element_of, entry_of, value, values, member_values,
}

-- Where there is a value, the result is success with the hash that the specification gives; where
-- there is none, it is failure.
abbrev pub Follows : {A : Type 0} → (A → ℕ → ℕ) → Option A → ℕ → Bool × ℕ → Type 0
Follows spec none h result = result.0 ≡ false
Follows spec (some a) h result = result ≡ (true, spec a h)

abbrev pub Agrees : {A : Type 0} → (A → ℕ → ℕ) → Option A → Hashing → Type 0
Agrees spec o m = (h : ℕ) → Follows spec o h (m h)

-- A container's count agrees with the number of values read from it.
abbrev pub Counts : {A : Type 0} → (A → ℕ) → Option A → ℕ → Type 0
Counts count none n = Unit
Counts count (some a) n = count a ≡ n

pub Agrees-array :
    (o : Option Elements) (m : Hashing) (n : ℕ)
    → Counts count_elements o n
    → Agrees hash_elements o m
    → Agrees hash_object (array_of o) (m >> update (λ h. hash_u32 h (u32 n)))
unfolding hash_object
Agrees-array none m n c a = λ h. ground (arith, a h)
Agrees-array (some xs) m n c a = λ h. rw (a h, c)

pub Agrees-map :
    (o : Option Entries) (m : Hashing) (n : ℕ)
    → Counts count_entries o n
    → Agrees hash_entries o m
    → Agrees hash_object (map_of o) (m >> update (λ h. hash_u32 h (u32 n)))
unfolding hash_object
Agrees-map none m n c a = λ h. ground (arith, a h)
Agrees-map (some es) m n c a = λ h. rw (a h, c)

pub Agrees-element :
    (o : Option Object) (os : Option Elements) (m ms : Hashing)
    → Agrees hash_object o m
    → Agrees hash_elements os ms
    → Agrees hash_elements (element_of o os) (m >> ms)
unfolding hash_object
Agrees-element none os m ms a as' = λ h. ground (arith, a h)
Agrees-element (some x) none m ms a as' = λ h. rw (a h) (as' (hash_object x h))
Agrees-element (some x) (some xs) m ms a as' = λ h. rw (a h) (as' (hash_object x h))

pub Agrees-entry :
    (k : List ℕ) (o : Option Object) (os : Option Entries) (m ms : Hashing)
    → Agrees hash_object o m
    → Agrees hash_entries os ms
    → Agrees hash_entries (entry_of k o os) (update (λ h. hash_str h k) >> (m >> ms))
unfolding hash_object
Agrees-entry k none os m ms a as' = λ h. ground (arith, a (hash_str h k))
Agrees-entry k (some x) none m ms a as' =
    λ h. rw (a (hash_str h k)) (as' (hash_object x (hash_str h k)))
Agrees-entry k (some x) (some es) m ms a as' =
    λ h. rw (a (hash_str h k)) (as' (hash_object x (hash_str h k)))

pub Counts-element :
    (o : Option Object) (os : Option Elements) (n : ℕ)
    → Counts count_elements os n
    → Counts count_elements (element_of o os) (suc n)
Counts-element none os n c = tt
Counts-element (some x) none n c = tt
Counts-element (some x) (some xs) n c = ap suc c

pub Counts-entry :
    (k : List ℕ) (o : Option Object) (os : Option Entries) (n : ℕ)
    → Counts count_entries os n
    → Counts count_entries (entry_of k o os) (suc n)
Counts-entry k none os n c = tt
Counts-entry k (some x) none n c = tt
Counts-entry k (some x) (some es) n c = ap suc c

module _ {L : Type 0} (leaf_value : L → Option Object) (key : List ℕ → List ℕ) where
  pub Counts-values :
      (ts : Items L) → Counts count_elements (values leaf_value key ts) (item_count ts)
  unfolding value
  Counts-values no_items = refl
  Counts-values (item t ts) =
      Counts-element (value leaf_value key t) (values leaf_value key ts) (item_count ts)
        (Counts-values ts)

  pub Counts-member_values :
      (ms : Members L) → Counts count_entries (member_values leaf_value key ms) (member_count ms)
  unfolding value
  Counts-member_values no_members = refl
  Counts-member_values (member k t ms) =
      Counts-entry (key k) (value leaf_value key t) (member_values leaf_value key ms)
        (member_count ms) (Counts-member_values ms)
