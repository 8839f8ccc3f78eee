-- ===== src/Yajl/Parse/Laws/Fails.antt =====
-- An object whose containers stand too deep ends the parser.
use schemaless_benchmarks.Base.{
  ℕ, suc, ◌+◌, ◌≤◌, ◌<◌, ◌≡◌, refl, ap, ◌∙◌, arith, Bool, Bool-cases, true, false, inl, inr, ltb,
  ltb→lt, ltb→le, List, [], ◌∷◌, ◌++◌,
}
use schemaless_benchmarks.Object.{
  Object, Elements, Entries, nil, bool, double, int, uint, str, array, map, no_elements, element,
  no_entries, entry,
}
use schemaless_benchmarks.Writer.{
  perform_all, events, element_events, entry_events, end_array, end_map,
}
use schemaless_benchmarks.Writer.Laws.{perform_all-then, perform_all-failed}
use schemaless_benchmarks.Yajl.Parse.{
  Memory, Callback, store, dispatch, parse_start_compound, parser_init,
}
use schemaless_benchmarks.Hash.{hash_str}
use schemaless_benchmarks.Yajl.Parse.Laws.Steps.{
  Started, start_at, start_at-Opens, start-deep, root_start, root-Started, RootStarted, root_level,
  root_level-small,
}
use schemaless_benchmarks.Object.Nesting.{nesting, nesting_elements, nesting_entries}
use schemaless_benchmarks.Yajl.Parse.Laws.Deep.{callbacks, callbacks-append}
use schemaless_benchmarks.Yajl.Parse.Laws.Run.{Runs-one, object-Runs}

module _ (in_register : Bool) where
  abbrev pub Fails : List Callback → Memory → Type 0
  Fails cs parser = (perform_all (dispatch in_register) cs parser).0 ≡ false

  -- The first calls succeed, and the rest fails.
  pub Fails-after :
      (cs ds : List Callback) (parser middle : Memory)
      → perform_all (dispatch in_register) cs parser ≡ (true, middle)
      → Fails ds middle
      → Fails (cs ++ ds) parser
  Fails-after cs ds parser middle first failed =
      ap (λ (r : Bool × Memory). r.0)
        (perform_all-then (dispatch in_register) cs ds parser middle first refl)
      ∙ failed

  pub Fails-one :
      (c : Callback) (parser : Memory)
      → (dispatch in_register c parser).0 ≡ false
      → Fails (c ∷ []) parser
  unfolding perform_all
  Fails-one c parser failed = rw failed refl

  container-Fails :
      (open' close : Callback) (cs : List Callback) (parser : Memory) (d : ℕ)
      → ((m : Memory) → dispatch in_register open' m ≡ parse_start_compound in_register m)
      → parser 1 ≡ d
      → d ≤ 31
      → ((q : Memory) → d < 31 → Started d (parser 0) q → Fails cs q)
      → Fails (open' ∷ (cs ++ close ∷ [])) parser
  container-Fails open' close cs parser d opens at bound body = elim (Bool-cases (ltb d 31)) [
    | inl room ↦
        let start = start_at-Opens in_register parser d at (ltb→lt d 31 room) in
        let (middle, e, s) =
          Runs-one in_register {P = Started d (parser 0)} open' parser (start_at parser d)
            (opens parser ∙ start.succeeds) start.started in
        Fails-after (open' ∷ []) (cs ++ close ∷ []) parser middle e (
          perform_all-failed (dispatch in_register) cs (close ∷ []) middle
            (body middle (ltb→lt d 31 room) s))
    | inr full ↦ perform_all-failed (dispatch in_register) (open' ∷ []) (cs ++ close ∷ []) parser (
        Fails-one open' parser (
          ap (λ (r : Bool × Memory). r.0) (opens parser)
          ∙ start-deep in_register parser d at (ground arith) (omega arith)))
  ]

  mutual
    unfolding events callbacks nesting dispatch

    object-Fails :
        (o : Object) (parser : Memory) (d : ℕ)
        → parser 1 ≡ d
        → d ≤ 31
        → 31 < d + nesting o
        → Fails (callbacks (events o)) parser
    object-Fails (array xs) parser d at bound deep =
        rw (callbacks-append (element_events xs) (end_array ∷ [])) (
          container-Fails Callback.start_array Callback.end_array (callbacks (element_events xs))
            parser d (λ m. refl) at bound
            (λ q room s. elements-Fails xs q (suc d) s.depth (omega arith) (omega arith)))
    object-Fails (map es) parser d at bound deep =
        rw (callbacks-append (entry_events es) (end_map ∷ [])) (
          container-Fails Callback.start_map Callback.end_map (callbacks (entry_events es)) parser d
            (λ m. refl) at bound
            (λ q room s. entries-Fails es q (suc d) s.depth (omega arith) (omega arith)))
    object-Fails nil parser d at bound deep = absurd (omega arith)
    object-Fails (bool b) parser d at bound deep = absurd (omega arith)
    object-Fails (double x) parser d at bound deep = absurd (omega arith)
    object-Fails (int i) parser d at bound deep = absurd (omega arith)
    object-Fails (uint u) parser d at bound deep = absurd (omega arith)
    object-Fails (str s) parser d at bound deep = absurd (omega arith)

    elements-Fails :
        (xs : Elements) (parser : Memory) (d : ℕ)
        → parser 1 ≡ d
        → d ≤ 31
        → 31 < d + nesting_elements xs
        → Fails (callbacks (element_events xs)) parser
    elements-Fails no_elements parser d at bound deep = absurd (omega arith)
    elements-Fails (element x xs) parser d at bound deep =
        rw (callbacks-append (events x) (element_events xs))
          (elim (Bool-cases (ltb 31 (d + nesting x))) [
            | inl first ↦
                perform_all-failed (dispatch in_register) (callbacks (events x))
                  (callbacks (element_events xs)) parser
                  (object-Fails x parser d at bound (ltb→lt 31 (d + nesting x) first))
            | inr fits ↦
                let shallow = ltb→le 31 (d + nesting x) fits in
                let (middle, e, c) = object-Runs in_register x parser d at shallow in
                Fails-after (callbacks (events x)) (callbacks (element_events xs)) parser middle e
                  (elements-Fails xs middle d c.depth bound (omega arith))
          ])

    entries-Fails :
        (es : Entries) (parser : Memory) (d : ℕ)
        → parser 1 ≡ d
        → d ≤ 31
        → 31 < d + nesting_entries es
        → Fails (callbacks (entry_events es)) parser
    entries-Fails no_entries parser d at bound deep = absurd (omega arith)
    entries-Fails (entry k x es) parser d at bound deep =
        let keyed = store 0 (hash_str (parser 0) k) parser in
        let read =
          Runs-one in_register {P = λ m. m 1 ≡ d} (Callback.map_key k) parser keyed refl at in
        rw (callbacks-append (events x) (entry_events es)) (
          Fails-after (Callback.map_key k ∷ [])
            (callbacks (events x) ++ callbacks (entry_events es)) parser read.0 read.1
            (elim (Bool-cases (ltb 31 (d + nesting x))) [
              | inl first ↦
                  perform_all-failed (dispatch in_register) (callbacks (events x))
                    (callbacks (entry_events es)) read.0
                    (object-Fails x read.0 d read.2 bound (ltb→lt 31 (d + nesting x) first))
              | inr fits ↦
                  let shallow = ltb→le 31 (d + nesting x) fits in
                  let (middle, e, c) = object-Runs in_register x read.0 d read.2 shallow in
                  Fails-after (callbacks (events x)) (callbacks (entry_events es)) read.0 middle e
                    (entries-Fails es middle d c.depth bound (omega arith))
            ]))

  root-Fails :
      (open' close : Callback) (cs : List Callback) (hash : ℕ) (rest : Memory)
      → ((m : Memory) → dispatch in_register open' m ≡ parse_start_compound in_register m)
      → ((q : Memory) → RootStarted (root_level in_register) hash q → Fails cs q)
      → Fails (open' ∷ (cs ++ close ∷ [])) (parser_init hash rest)
  root-Fails open' close cs hash rest opens body =
      let (starts, root) = root-Started in_register hash rest in
      let (middle, e, s) =
        Runs-one in_register {P = RootStarted (root_level in_register) hash} open'
          (parser_init hash rest) (root_start in_register hash rest) (opens _ ∙ starts) root in
      Fails-after (open' ∷ []) (cs ++ close ∷ []) (parser_init hash rest) middle e
        (perform_all-failed (dispatch in_register) cs (close ∷ []) middle (body middle s))

  pub document-Fails :
      (o : Object) (hash : ℕ) (rest : Memory)
      → 32 < nesting o
      → Fails (callbacks (events o)) (parser_init hash rest)
  unfolding events callbacks nesting dispatch
  document-Fails (array xs) hash rest deep =
      rw (callbacks-append (element_events xs) (end_array ∷ [])) (
        root-Fails Callback.start_array Callback.end_array (callbacks (element_events xs)) hash rest
          (λ m. refl)
          (λ q s.
            elements-Fails xs q (root_level in_register) s.depth
              (omega (arith, root_level-small in_register)) (omega arith)))
  document-Fails (map es) hash rest deep = rw (callbacks-append (entry_events es) (end_map ∷ [])) (
      root-Fails Callback.start_map Callback.end_map (callbacks (entry_events es)) hash rest
        (λ m. refl)
        (λ q s.
          entries-Fails es q (root_level in_register) s.depth
            (omega (arith, root_level-small in_register)) (omega arith)))
  document-Fails nil hash rest deep = absurd (omega arith)
  document-Fails (bool b) hash rest deep = absurd (omega arith)
  document-Fails (double x) hash rest deep = absurd (omega arith)
  document-Fails (int i) hash rest deep = absurd (omega arith)
  document-Fails (uint u) hash rest deep = absurd (omega arith)
  document-Fails (str s) hash rest deep = absurd (omega arith)
