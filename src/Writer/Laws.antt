-- ===== src/Writer/Laws.antt =====
-- Writing functions against the events of an object: one rule for each way to put them together.
use mathlib.Core.List.{append_assoc, append-nil}
use schemaless_benchmarks.Base.{
  ℕ, Bool, Bool-cases, true, false, ◌≡◌, refl, sym, ap, ◌∙◌, List, [], ◌∷◌, ◌++◌, ◌⊎◌, inl, inr,
  if◌then◌else◌,
}
use schemaless_benchmarks.Writer.{
  Writing, done, ◌>>◌, quiet, perform_all, Event, encode_all, bytes_all,
}

-- Two ways to write do the same to every writer.
abbrev pub Same : {W : Type 0} → Writing W → Writing W → Type 0
Same {W} m n = (w : W) → m w ≡ n w

perform_all-append :
    {C W : Type 0} (perform : C → Writing W) (cs ds : List C)
    → Same (perform_all perform cs >> perform_all perform ds) (perform_all perform (cs ++ ds))
unfolding perform_all
perform_all-append perform [] ds w = refl
perform_all-append perform (c ∷ cs) ds w = elim (Bool-cases (perform c w).0) [
  | inl ok ↦ rw ok (perform_all-append perform cs ds (perform c w).1)
  | inr failed ↦ rw failed refl
]

-- Calls that all succeed, and then more of them.
pub perform_all-then :
    {C W : Type 0} (perform : C → Writing W) (cs ds : List C) (v w : W) {result : Bool × W}
    → perform_all perform cs v ≡ (true, w)
    → perform_all perform ds w ≡ result
    → perform_all perform (cs ++ ds) v ≡ result
perform_all-then perform cs ds v w first second =
    rw (sym (perform_all-append perform cs ds v), first) second

-- A call that fails ends the sequence.
pub perform_all-failed :
    {C W : Type 0} (perform : C → Writing W) (cs ds : List C) (v : W)
    → (perform_all perform cs v).0 ≡ false
    → (perform_all perform (cs ++ ds) v).0 ≡ false
perform_all-failed perform cs ds v failed =
    rw (sym (perform_all-append perform cs ds v), failed) refl

Same-then : {W : Type 0} (m m' k k' : Writing W) → Same m m' → Same k k' → Same (m >> k) (m' >> k')
Same-then m m' k k' p q w = rw (p w) (after (Bool-cases (m' w).0))
  where
    after :
        ((m' w).0 ≡ true) ⊎ ((m' w).0 ≡ false)
        → (if (m' w).0 then k (m' w).1 else (false, (m' w).1))
          ≡ (if (m' w).0 then k' (m' w).1 else (false, (m' w).1))
    after (inl ok) = rw ok (q (m' w).1)
    after (inr failed) = rw failed refl

-- What is done after `m` only returns.
then-done : {W : Type 0} (m : Writing W) → Same m (m >> done)
then-done m w = elim (Bool-cases (m w).0) [ inl ok ↦ rw ok refl | inr failed ↦ rw failed refl ]

pub encode_all-append :
    {C : Type 0} (encode : Event → List C) (es fs : List Event)
    → encode_all encode (es ++ fs) ≡ encode_all encode es ++ encode_all encode fs
unfolding encode_all
encode_all-append encode [] fs = refl
encode_all-append encode (e ∷ es) fs =
    ap (λ cs. encode e ++ cs) (encode_all-append encode es fs)
    ∙ sym (append_assoc (encode e) (encode_all encode es) (encode_all encode fs))

module _ {C W : Type 0} (perform : C → Writing W) (encode : Event → List C) where
  -- The function makes the calls for the events, in their order, until one fails.
  abbrev pub Emits : Writing W → List Event → Type 0
  Emits m es = Same m (perform_all perform (encode_all encode es))

  pub Emits-nothing : Emits done []
  unfolding perform_all encode_all
  Emits-nothing w = refl

  pub Emits-append :
      (m k : Writing W) (es fs : List Event) → Emits m es → Emits k fs → Emits (m >> k) (es ++ fs)
  Emits-append m k es fs p q w =
      Same-then m (perform_all perform (encode_all encode es)) k
        (perform_all perform (encode_all encode fs)) p q w
      ∙ (perform_all-append perform (encode_all encode es) (encode_all encode fs) w
          ∙ ap (λ cs. perform_all perform cs w) (sym (encode_all-append encode es fs)))

  pub Emits-one : (e : Event) (c : C) → encode e ≡ c ∷ [] → Emits (perform c) (e ∷ [])
  unfolding perform_all encode_all
  Emits-one e c only w = rw only (then-done (perform c) w)

  pub Emits-two :
      (e : Event) (c d : C) → encode e ≡ c ∷ d ∷ [] → Emits (perform c >> perform d) (e ∷ [])
  unfolding perform_all encode_all
  Emits-two e c d both w = rw both (
      Same-then (perform c) (perform c) (perform d) (perform d >> done) (λ v. refl)
        (then-done (perform d)) w)

  -- An event that the format does not write.
  pub Emits-silent :
      (m : Writing W) (es : List Event) (e : Event)
      → encode e ≡ []
      → Emits m es
      → Emits m (es ++ e ∷ [])
  unfolding encode_all
  Emits-silent m es e none p w =
      p w
      ∙ ap (λ cs. perform_all perform cs w)
          (sym (append-nil (encode_all encode es))
            ∙ (ap (λ cs. encode_all encode es ++ (cs ++ [])) (sym none)
                ∙ sym (encode_all-append encode es (e ∷ []))))

-- Every call succeeds and adds its bytes to the writer's contents.
abbrev pub Appends : {C W : Type 0} → (C → Writing W) → (W → List ℕ) → (C → List ℕ) → Type 0
Appends {C} {W} perform contents bytes_of =
    (c : C) (w : W)
    → ((perform c w).0 ≡ true) × (contents (perform c w).1 ≡ contents w ++ bytes_of c)

pub perform_all-Appends :
    {C W : Type 0} (perform : C → Writing W) (contents : W → List ℕ) (bytes_of : C → List ℕ)
    → Appends perform contents bytes_of
    → (cs : List C) (w : W)
    → ((perform_all perform cs w).0 ≡ true)
      × (contents (perform_all perform cs w).1 ≡ contents w ++ bytes_all bytes_of cs)
unfolding perform_all bytes_all
perform_all-Appends perform contents bytes_of adds [] w = (refl, sym (append-nil (contents w)))
perform_all-Appends perform contents bytes_of adds (c ∷ cs) w =
    let (ok, first) = adds c w in
    let (oks, rest) = perform_all-Appends perform contents bytes_of adds cs (perform c w).1 in
    rw ok (
      oks,
      rest
          ∙ (ap (λ bytes. bytes ++ bytes_all bytes_of cs) first
              ∙ append_assoc (contents w) (bytes_of c) (bytes_all bytes_of cs)),
    )

-- A call that succeeds adds its bytes, which may depend on what was written before it.
abbrev pub Grows : {C W : Type 0} → (C → Writing W) → (W → List ℕ) → (W → C → List ℕ) → Type 0
Grows {C} {W} perform contents added =
    (c : C) (w : W) → (perform c w).0 ≡ true → contents (perform c w).1 ≡ contents w ++ added w c

-- What calls add one after the other, each to what those before it leave.
unfoldable pub trace : {C W : Type 0} → (C → Writing W) → (W → C → List ℕ) → List C → W → List ℕ
trace perform added [] w = []
trace perform added (c ∷ cs) w = added w c ++ trace perform added cs (perform c w).1

-- Calls that all succeed.
pub perform_all-Grows :
    {C W : Type 0} (perform : C → Writing W) (contents : W → List ℕ) (added : W → C → List ℕ)
    → Grows perform contents added
    → (cs : List C) (w : W) → (perform_all perform cs w).0 ≡ true
    → contents (perform_all perform cs w).1 ≡ contents w ++ trace perform added cs w
unfolding perform_all trace
perform_all-Grows perform contents added grows [] w ok = sym (append-nil (contents w))
perform_all-Grows perform contents added grows (c ∷ cs) w ok = elim (Bool-cases (perform c w).0) [
  | inl taken ↦
      let rest =
        perform_all-Grows perform contents added grows cs (perform c w).1 (rw taken at ok) in
      rw taken (
        rest
        ∙ (ap (λ bytes. bytes ++ trace perform added cs (perform c w).1) (grows c w taken)
            ∙ append_assoc (contents w) (added w c) (trace perform added cs (perform c w).1)))
  | inr failed ↦ absurd (let refused = rw failed at ok in cc)
]

-- What every call keeps is kept by all of them.
pub perform_all-Keeps :
    {C W : Type 0} (issue : C → W → W) (Kept : W → Type 0)
    → ((c : C) (w : W) → Kept w → Kept (issue c w))
    → (cs : List C) (w : W) → Kept w
    → Kept (perform_all (quiet issue) cs w).1
unfolding perform_all
perform_all-Keeps issue Kept keeps [] w kept = kept
perform_all-Keeps issue Kept keeps (c ∷ cs) w kept =
    perform_all-Keeps issue Kept keeps cs (issue c w) (keeps c w kept)
