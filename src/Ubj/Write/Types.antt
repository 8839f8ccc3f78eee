-- ===== src/Ubj/Write/Types.antt =====
-- The types that ubj-write.c declares for containers.
use schemaless_benchmarks.Base.{
  ℕ, ◌≤◌, ◌≡◌, ◌≢◌, ◌↔◌, refl, sym, ap, ◌∙◌, arith, ◌==◌, ==_iff, Bool-cases, true, false, inl, inr,
  ◌⊎◌, All, List, [], ◌∷◌, if◌then◌else◌, ℤ, length,
}
use schemaless_benchmarks.Object.{Elements, Entries, no_elements, element, no_entries, entry}
use schemaless_benchmarks.Ubj.Write.{
  UbjType, ubj_mixed, ubj_nulltype, ubj_bool_true, ubj_bool_false, ubj_string, ubj_float64,
  ubj_int8, ubj_uint8, ubj_int16, ubj_int32, ubj_int64, ubj_array, ubj_object, number, get_ubj_type,
  same_elements, same_entries, type_of_elements, type_of_entries,
}

-- The type with a number.
abbrev numbered : ℕ → UbjType
numbered n =
    if n == 1
    then ubj_nulltype
    else if n == 2
    then ubj_bool_true
    else if n == 3
    then ubj_bool_false
    else if n == 4
    then ubj_string
    else if n == 5
    then ubj_float64
    else if n == 6
    then ubj_int8
    else if n == 7
    then ubj_uint8
    else if n == 8
    then ubj_int16
    else if n == 9
    then ubj_int32
    else if n == 10
    then ubj_int64
    else if n == 11
    then ubj_array
    else if n == 12
    then ubj_object
    else ubj_mixed

numbered-number : (t : UbjType) → numbered (number t) ≡ t
numbered-number ubj_mixed = refl
numbered-number ubj_nulltype = refl
numbered-number ubj_bool_true = refl
numbered-number ubj_bool_false = refl
numbered-number ubj_string = refl
numbered-number ubj_float64 = refl
numbered-number ubj_int8 = refl
numbered-number ubj_uint8 = refl
numbered-number ubj_int16 = refl
numbered-number ubj_int32 = refl
numbered-number ubj_int64 = refl
numbered-number ubj_array = refl
numbered-number ubj_object = refl

number-injective : (t u : UbjType) → number t == number u ≡ true → t ≡ u
number-injective t u e =
    sym (numbered-number t) ∙ (ap numbered ((==_iff (number t) (number u)).0 e) ∙ numbered-number u)

number-same : (t : UbjType) → number t == number t ≡ true
number-same t = (==_iff (number t) (number t)).1 refl

-- The loops on the types of the children.
abbrev same : UbjType → List UbjType → UbjType
same t [] = t
same t (u ∷ us) = let rest = same t us in if number u == number t then rest else ubj_mixed

abbrev common : List UbjType → UbjType
common (t ∷ u ∷ us) = if number t == number ubj_mixed then ubj_mixed else same t (u ∷ us)
common _ = ubj_mixed

same-Shared :
    (t : UbjType) (us : List UbjType)
    → (same t us ≡ ubj_mixed) ⊎ ((same t us ≡ t) × All (λ u. u ≡ t) us)
same-Shared t [] = inr (refl, tt)
same-Shared t (u ∷ us) = elim (Bool-cases (number u == number t)) [
  | inr differs ↦ inl (rw differs refl)
  | inl alike ↦ elim (same-Shared t us) [
    | inl mixed ↦ inl (rw alike mixed)
    | inr (whole, others) ↦ inr (rw alike whole, (number-injective u t alike, others))
  ]
]

same-All : (t : UbjType) (us : List UbjType) → All (λ u. u ≡ t) us → same t us ≡ t
same-All t [] shared = refl
same-All t (u ∷ us) shared = rw (shared.0, number-same t) (same-All t us shared.1)

All-retyped :
    (v t : UbjType) (us : List UbjType) → v ≡ t → All (λ w. w ≡ v) us → All (λ w. w ≡ t) us
All-retyped v t [] e shared = tt
All-retyped v t (u ∷ us) e shared = (shared.0 ∙ e, All-retyped v t us e shared.1)

common_iff :
    (t : UbjType) (us : List UbjType)
    → t ≢ ubj_mixed
    → (common us ≡ t) ↔ ((2 ≤ length us) × All (λ u. u ≡ t) us)
common_iff t [] typed = (λ e. absurd (typed (sym e)), λ shared. absurd (omega (arith, shared.0)))
common_iff t (v ∷ []) typed =
    (λ e. absurd (typed (sym e)), λ shared. absurd (omega (arith, shared.0)))
common_iff t (v ∷ u ∷ us) typed = elim (Bool-cases (number v == number ubj_mixed)) [
  | inl mixed ↦ (
    λ e. absurd (typed (sym (rw mixed at e))),
    λ shared. absurd (typed (sym shared.1.0 ∙ number-injective v ubj_mixed mixed)),
  )
  | inr other ↦ (
    λ e. forward other e (same-Shared v (u ∷ us)),
    λ shared. rw other (ap (λ w. same w (u ∷ us)) shared.1.0 ∙ same-All t (u ∷ us) shared.1.1),
  )
]
  where
    forward :
        number v == number ubj_mixed ≡ false
        → common (v ∷ u ∷ us) ≡ t
        → (same v (u ∷ us) ≡ ubj_mixed) ⊎ ((same v (u ∷ us) ≡ v) × All (λ w. w ≡ v) (u ∷ us))
        → (2 ≤ length (v ∷ u ∷ us)) × All (λ w. w ≡ t) (v ∷ u ∷ us)
    forward other e (inl mixed) = absurd (typed (sym (rw other at e) ∙ mixed))
    forward other e (inr (whole, shared)) =
        let exact : v ≡ t = sym whole ∙ (rw other at e) in
        (omega arith, (exact, All-retyped v t (u ∷ us) exact shared))

-- The types of the children, in their order.
abbrev pub element_types : (ℤ → UbjType) → Elements → List UbjType
element_types min_type no_elements = []
element_types min_type (element x xs) = get_ubj_type min_type x ∷ element_types min_type xs

abbrev pub entry_types : (ℤ → UbjType) → Entries → List UbjType
entry_types min_type no_entries = []
entry_types min_type (entry k x es) = get_ubj_type min_type x ∷ entry_types min_type es

same_elements-same :
    (min_type : ℤ → UbjType) (t : UbjType) (xs : Elements)
    → same_elements min_type t xs ≡ same t (element_types min_type xs)
unfolding same_elements
same_elements-same min_type t no_elements = refl
same_elements-same min_type t (element x xs) = rw (same_elements-same min_type t xs) refl

same_entries-same :
    (min_type : ℤ → UbjType) (t : UbjType) (es : Entries)
    → same_entries min_type t es ≡ same t (entry_types min_type es)
unfolding same_entries
same_entries-same min_type t no_entries = refl
same_entries-same min_type t (entry k x es) = rw (same_entries-same min_type t es) refl

type_of_elements-common :
    (min_type : ℤ → UbjType) (xs : Elements)
    → type_of_elements min_type xs ≡ common (element_types min_type xs)
unfolding type_of_elements
type_of_elements-common min_type no_elements = refl
type_of_elements-common min_type (element x no_elements) = refl
type_of_elements-common min_type (element x (element y xs)) =
    rw (same_elements-same min_type (get_ubj_type min_type x) (element y xs)) refl

type_of_entries-common :
    (min_type : ℤ → UbjType) (es : Entries)
    → type_of_entries min_type es ≡ common (entry_types min_type es)
unfolding type_of_entries
type_of_entries-common min_type no_entries = refl
type_of_entries-common min_type (entry k x no_entries) = refl
type_of_entries-common min_type (entry k x (entry l y es)) =
    rw (same_entries-same min_type (get_ubj_type min_type x) (entry l y es)) refl

-- A list or a map is declared to hold a type exactly if it has two children or more and all of them have that type.
pub type_of_container_iff :
    (min_type : ℤ → UbjType) (t : UbjType) (xs : Elements) (es : Entries)
    → t ≢ ubj_mixed
    → ((type_of_elements min_type xs ≡ t)
        ↔ ((2 ≤ length (element_types min_type xs)) × All (λ u. u ≡ t) (element_types min_type xs)))
      × ((type_of_entries min_type es ≡ t)
          ↔ ((2 ≤ length (entry_types min_type es)) × All (λ u. u ≡ t) (entry_types min_type es)))
type_of_container_iff min_type t xs es typed = (
  rw (type_of_elements-common min_type xs) (common_iff t (element_types min_type xs) typed),
  rw (type_of_entries-common min_type es) (common_iff t (entry_types min_type es) typed),
)
