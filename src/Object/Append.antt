-- ===== src/Object/Append.antt =====
-- Children added behind others, and keys that a map does not have.
use schemaless_benchmarks.Base.{ℕ, ◌≡◌, ◌≢◌, refl, ap, arith, All, List, [], ◌∷◌}
use schemaless_benchmarks.Object.{
  Object, Elements, Entries, no_elements, element, no_entries, entry,
}
use schemaless_benchmarks.Object.Valid.{IsCharacter}
use schemaless_benchmarks.Parser.{c_str}

unfoldable pub append_elements : Elements → Elements → Elements
append_elements no_elements ys = ys
append_elements (element x xs) ys = element x (append_elements xs ys)

unfoldable pub append_entries : Entries → Entries → Entries
append_entries no_entries fs = fs
append_entries (entry k x es) fs = entry k x (append_entries es fs)

pub append_elements-none : (xs : Elements) → append_elements xs no_elements ≡ xs
unfolding append_elements
append_elements-none no_elements = refl
append_elements-none (element x xs) = ap (λ ys. element x ys) (append_elements-none xs)

pub append_entries-none : (es : Entries) → append_entries es no_entries ≡ es
unfolding append_entries
append_entries-none no_entries = refl
append_entries-none (entry k x es) = ap (λ fs. entry k x fs) (append_entries-none es)

pub append_elements_assoc :
    (xs ys zs : Elements)
    → append_elements (append_elements xs ys) zs ≡ append_elements xs (append_elements ys zs)
unfolding append_elements
append_elements_assoc no_elements ys zs = refl
append_elements_assoc (element x xs) ys zs =
    ap (λ rest. element x rest) (append_elements_assoc xs ys zs)

pub append_entries_assoc :
    (es fs gs : Entries)
    → append_entries (append_entries es fs) gs ≡ append_entries es (append_entries fs gs)
unfolding append_entries
append_entries_assoc no_entries fs gs = refl
append_entries_assoc (entry k x es) fs gs =
    ap (λ rest. entry k x rest) (append_entries_assoc es fs gs)

-- No entry has the key.
unfoldable pub IsFresh : List ℕ → Entries → Type 0
IsFresh key no_entries = Unit
IsFresh key (entry k x es) = (key ≢ k) × IsFresh key es

pub IsFresh-append :
    (key k : List ℕ) (x : Object) (es : Entries)
    → key ≢ k
    → IsFresh key es
    → IsFresh key (append_entries es (entry k x no_entries))
unfolding append_entries IsFresh
IsFresh-append key k x no_entries other f = (other, tt)
IsFresh-append key k x (entry j y es) other f = (f.0, IsFresh-append key k x es other f.1)

-- A string without null bytes is whole as a C string.
pub c_str-IsCharacter : (s : List ℕ) → All IsCharacter s → c_str s ≡ s
c_str-IsCharacter [] h = refl
c_str-IsCharacter (b ∷ s) h = ground (arith, h.0, c_str-IsCharacter s h.1)
