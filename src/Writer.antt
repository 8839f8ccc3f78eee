-- ===== src/Writer.antt =====
-- What the writers' benchmarks share: calls of a library that can fail, with early return, and the
-- events of an object in the order in which a document holds them. The libraries are not part of the
-- repository: `W` is a library's writer, and what a call does to it is a parameter.
pub mod Laws
pub mod Bytes
pub mod Yields
use schemaless_benchmarks.Base.{ℕ, Bool, true, false, List, [], ◌∷◌, ◌++◌, u32, if◌then◌else◌, ℤ}
use schemaless_benchmarks.Object.{
  Object, Elements, Entries, nil, bool, double, int, uint, str, array, map, no_elements, element,
  no_entries, entry, count_elements, count_entries,
}

-- A function that returns whether it succeeded and changes the writer.
abbrev pub Writing : Type 0 → Type 0
Writing W = W → Bool × W

-- `return true;`
abbrev pub done : {W : Type 0} → Writing W
done w = (true, w)

-- `if (!m) return false;` before what follows.
infixl 5 ◌>>◌
abbrev pub ◌>>◌ : {W : Type 0} → Writing W → Writing W → Writing W
m >> k = λ w. let (ok, w') = m w in if ok then k w' else (false, w')

-- Calls one after the other, until one fails.
unfoldable pub perform_all : {C W : Type 0} → (C → Writing W) → List C → Writing W
perform_all perform [] = done
perform_all perform (c ∷ cs) = perform c >> perform_all perform cs

-- A call of a library that keeps its errors to itself: nothing is returned.
abbrev pub quiet : {C W : Type 0} → (C → W → W) → C → Writing W
quiet issue c w = (true, issue c w)

-- A document as a sequence of events.
pub data Event : Type 0 where
  null : Event
  boolean : Bool → Event
  real : ℕ → Event
  signed : ℤ → Event
  unsigned : ℕ → Event
  text : List ℕ → Event
  begin_array : ℕ → Event
  end_array : Event
  begin_map : ℕ → Event
  key : List ℕ → Event
  end_map : Event

unfoldable mutual
  pub events : Object → List Event
  events nil = null ∷ []
  events (bool b) = boolean b ∷ []
  events (double d) = real d ∷ []
  events (int i) = signed i ∷ []
  events (uint u) = unsigned u ∷ []
  events (str s) = text s ∷ []
  events (array xs) = begin_array (u32 (count_elements xs)) ∷ (element_events xs ++ end_array ∷ [])
  events (map es) = begin_map (u32 (count_entries es)) ∷ (entry_events es ++ end_map ∷ [])

  pub element_events : Elements → List Event
  element_events no_elements = []
  element_events (element x xs) = events x ++ element_events xs

  pub entry_events : Entries → List Event
  entry_events no_entries = []
  entry_events (entry k x es) = key k ∷ (events x ++ entry_events es)

-- The calls for a sequence of events.
unfoldable pub encode_all : {C : Type 0} → (Event → List C) → List Event → List C
encode_all encode [] = []
encode_all encode (e ∷ es) = encode e ++ encode_all encode es

-- The bytes for a sequence of calls.
unfoldable pub bytes_all : {C : Type 0} → (C → List ℕ) → List C → List ℕ
bytes_all bytes_of [] = []
bytes_all bytes_of (c ∷ cs) = bytes_of c ++ bytes_all bytes_of cs
