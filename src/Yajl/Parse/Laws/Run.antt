-- ===== src/Yajl/Parse/Laws/Run.antt =====
-- The callbacks for an object count it and mix in its hash.
use schemaless_benchmarks.Base.{
  Bool, ℕ, suc, ◌+◌, ◌^◌, ◌≤◌, ◌<◌, ◌≡◌, refl, sym, ap, ◌∙◌, arith, true, List, [], ◌∷◌, ◌++◌, u32,
  pos,
}
use schemaless_benchmarks.Hash.{hash_bool, hash_double, hash_i64, hash_nil, hash_str, hash_u32}
use schemaless_benchmarks.HashObject.{hash_object, hash_elements, hash_entries}
use schemaless_benchmarks.HashObject.Laws.{hash_i64-pos}
use schemaless_benchmarks.Object.{
  Object, Elements, Entries, nil, bool, double, int, uint, str, array, map, no_elements, element,
  no_entries, entry, count_elements, count_entries,
}
use schemaless_benchmarks.Writer.{
  perform_all, events, element_events, entry_events, end_array, end_map,
}
use schemaless_benchmarks.Writer.Laws.{perform_all-then}
use schemaless_benchmarks.Yajl.Parse.{
  Memory, Callback, store, dispatch, parse_start_compound, parse_end_compound,
}
use schemaless_benchmarks.Yajl.Parse.Laws.Steps.{
  Counted, Started, Opens, scalar-Counted, start_at, start_at-Opens, end_at, end_at-Closes,
}
use schemaless_benchmarks.Object.Nesting.{nesting, nesting_elements, nesting_entries}
use schemaless_benchmarks.Yajl.Parse.Laws.Deep.{callbacks, callbacks-append}

module _ (in_register : Bool) where
  -- The calls all succeed, and `P` holds of the memory after them.
  abbrev pub Runs : List Callback → Memory → (Memory → Type 0) → Type 0
  Runs cs parser P =
      (after : Memory) × (perform_all (dispatch in_register) cs parser ≡ (true, after)) × P after

  pub Runs-append :
      {P Q : Memory → Type 0} (cs ds : List Callback) (parser : Memory)
      → Runs cs parser P
      → ((after : Memory) → P after → Runs ds after Q)
      → Runs (cs ++ ds) parser Q
  Runs-append cs ds parser (middle, first, p) next =
      let (after, second, q) = next middle p in
      (after, perform_all-then (dispatch in_register) cs ds parser middle first second, q)

  pub Runs-one :
      {P : Memory → Type 0} (c : Callback) (parser after : Memory)
      → dispatch in_register c parser ≡ (true, after)
      → P after
      → Runs (c ∷ []) parser P
  unfolding perform_all
  Runs-one c parser after e p = (after, rw e refl, p)

  pub Runs-none : {P : Memory → Type 0} (parser : Memory) → P parser → Runs [] parser P
  unfolding perform_all
  Runs-none parser p = (parser, refl, p)

  -- First some children, then more.
  Counted-trans :
      (d h h' n n' m : ℕ) (before middle after : Memory)
      → m ≡ n + n'
      → Counted d h n before middle
      → Counted d h' n' middle after
      → Counted d h' m before after
  Counted-trans d h h' n n' m before middle after sum p q = record {
    hashed = q.hashed;
    depth = q.depth;
    count = omega (arith, p.count, q.count);
    above = λ i low high. q.above i low high ∙ p.above i low high;
  }

  -- A key is mixed in and counts for nothing.
  key-Counted :
      (k : List ℕ) (d : ℕ) (parser : Memory)
      → parser 1 ≡ d
      → parser (2 + d) < 2 ^ 32
      → Counted d (hash_str (parser 0) k) 0 parser (store 0 (hash_str (parser 0) k) parser)
  key-Counted k d parser at word = record {
    hashed = refl;
    depth = at;
    count = ground arith;
    above = λ i low high. ground arith;
  }

  -- A level with `n` children, from the memory that its start left.
  record Finished (d hash : ℕ) (before after : Memory) : Type 0 where
    pub hashed : after 0 ≡ hash
    pub depth : after 1 ≡ d
    pub others : (i : ℕ) → 2 ≤ i → i < 3 + d → after i ≡ before i

  Counted-hash :
      (d h h' n : ℕ) (before after : Memory)
      → h ≡ h'
      → Counted d h n before after
      → Counted d h' n before after
  Counted-hash d h h' n before after e c = record {
    hashed = c.hashed ∙ e;
    depth = c.depth;
    count = c.count;
    above = c.above;
  }

  nothing-Counted :
      (d : ℕ) (parser : Memory)
      → parser 1 ≡ d
      → parser (2 + d) < 2 ^ 32
      → Counted d (parser 0) 0 parser parser
  nothing-Counted d parser at word = record {
    hashed = refl;
    depth = at;
    count = omega arith;
    above = λ i low high. refl;
  }

  level-Runs :
      (d h n : ℕ) (cs : List Callback) (close : Callback) (parser : Memory)
      → ((m : Memory) → dispatch in_register close m ≡ parse_end_compound m)
      → d < 31
      → parser (2 + suc d) ≡ 0
      → Runs cs parser (Counted (suc d) h n parser)
      → Runs (cs ++ close ∷ []) parser (Finished d (hash_u32 h (u32 n)) parser)
  level-Runs d h n cs close parser closes shallow empty body =
      Runs-append cs (close ∷ []) parser body λ after c.
        let ended = end_at-Closes after d c.depth shallow in
        let counted : after (2 + suc d) ≡ u32 n = omega (arith, c.count, empty) in
        Runs-one close after (end_at after d) (closes after ∙ ended.succeeds) (record {
          hashed = rw (sym c.hashed, sym counted) ended.hashed;
          depth = ended.depth;
          others = λ i low high. ended.others i low ∙ c.above i low (omega arith);
        })

  container-Counted :
      (d h : ℕ) (before middle after : Memory)
      → Opens in_register d before middle
      → Finished d h middle after
      → Counted d h 1 before after
  container-Counted d h before middle after s f = record {
    hashed = f.hashed;
    depth = f.depth;
    count = f.others (2 + d) (omega arith) (omega arith) ∙ s.count;
    above = λ i low high. f.others i low (omega arith) ∙ s.above i low high;
  }

  -- A whole container: its start, its children and its end.
  container-Runs :
      (d h n : ℕ) (open' close : Callback) (cs : List Callback) (parser : Memory)
      → ((m : Memory) → dispatch in_register open' m ≡ parse_start_compound in_register m)
      → ((m : Memory) → dispatch in_register close m ≡ parse_end_compound m)
      → parser 1 ≡ d
      → d < 31
      → ((q : Memory) → Started d (parser 0) q → Runs cs q (Counted (suc d) h n q))
      → Runs (open' ∷ (cs ++ close ∷ [])) parser (Counted d (hash_u32 h (u32 n)) 1 parser)
  container-Runs d h n open' close cs parser opens closes at shallow body =
      let start = start_at-Opens in_register parser d at shallow in
      Runs-append (open' ∷ []) (cs ++ close ∷ []) parser
        (Runs-one open' parser (start_at parser d) (opens parser ∙ start.succeeds) start)
        λ middle s.
          let (after, e, f) =
            level-Runs d h n cs close middle closes shallow s.started.empty
              (body middle s.started) in
          (after, e, container-Counted d _ parser middle after s f)

  mutual
    unfolding hash_object events callbacks nesting dispatch

    pub object-Runs :
        (o : Object) (parser : Memory) (d : ℕ)
        → parser 1 ≡ d
        → d + nesting o ≤ 31
        → Runs (callbacks (events o)) parser (Counted d (hash_object o (parser 0)) 1 parser)
    object-Runs nil parser d at room =
        Runs-one _ parser _ refl (scalar-Counted hash_nil parser d at (omega arith))
    object-Runs (bool b) parser d at room =
        Runs-one _ parser _ refl (scalar-Counted (λ h. hash_bool h b) parser d at (omega arith))
    object-Runs (double x) parser d at room =
        Runs-one _ parser _ refl (scalar-Counted (λ h. hash_double h x) parser d at (omega arith))
    object-Runs (int i) parser d at room =
        Runs-one _ parser _ refl (scalar-Counted (λ h. hash_i64 h i) parser d at (omega arith))
    object-Runs (uint u) parser d at room =
        let counted = scalar-Counted (λ h. hash_i64 h (pos u)) parser d at (omega arith) in
        Runs-one _ parser _ refl (Counted-hash d _ _ 1 parser _ (hash_i64-pos (parser 0) u) counted)
    object-Runs (str s) parser d at room =
        Runs-one _ parser _ refl (scalar-Counted (λ h. hash_str h s) parser d at (omega arith))
    object-Runs (array xs) parser d at room =
        rw (callbacks-append (element_events xs) (end_array ∷ [])) (
          container-Runs d _ (count_elements xs) Callback.start_array Callback.end_array
            (callbacks (element_events xs)) parser (λ m. refl) (λ m. refl) at (omega arith)
            (λ q s.
              rw⁻¹ s.hashed
                (elements-Runs xs q (suc d) s.depth (omega (arith, s.empty)) (omega arith))))
    object-Runs (map es) parser d at room = rw (callbacks-append (entry_events es) (end_map ∷ [])) (
        container-Runs d _ (count_entries es) Callback.start_map Callback.end_map
          (callbacks (entry_events es)) parser (λ m. refl) (λ m. refl) at (omega arith)
          (λ q s.
            rw⁻¹ s.hashed
              (entries-Runs es q (suc d) s.depth (omega (arith, s.empty)) (omega arith))))

    pub elements-Runs :
        (xs : Elements) (parser : Memory) (d : ℕ)
        → parser 1 ≡ d
        → parser (2 + d) < 2 ^ 32
        → d + nesting_elements xs ≤ 31
        → Runs
            (callbacks (element_events xs))
            parser
            (Counted d (hash_elements xs (parser 0)) (count_elements xs) parser)
    elements-Runs no_elements parser d at word room =
        Runs-none parser (nothing-Counted d parser at word)
    elements-Runs (element x xs) parser d at word room =
        rw (callbacks-append (events x) (element_events xs)) (
          Runs-append (callbacks (events x)) (callbacks (element_events xs)) parser
            (object-Runs x parser d at (omega arith))
            λ middle first.
              let (after, e, rest) =
                elements-Runs xs middle d first.depth (omega (arith, first.count)) (omega arith) in
              (
                after,
                e,
                Counted-trans d (hash_object x (parser 0)) _ 1 (count_elements xs) _ parser middle
                    after (omega arith) first
                    (Counted-hash d _ _ (count_elements xs) middle after
                      (ap (hash_elements xs) first.hashed) rest),
              ))

    pub entries-Runs :
        (es : Entries) (parser : Memory) (d : ℕ)
        → parser 1 ≡ d
        → parser (2 + d) < 2 ^ 32
        → d + nesting_entries es ≤ 31
        → Runs
            (callbacks (entry_events es))
            parser
            (Counted d (hash_entries es (parser 0)) (count_entries es) parser)
    entries-Runs no_entries parser d at word room =
        Runs-none parser (nothing-Counted d parser at word)
    entries-Runs (entry k x es) parser d at word room =
        let keyed = store 0 (hash_str (parser 0) k) parser in
        rw (callbacks-append (events x) (entry_events es)) (
          Runs-append {P = Counted d (hash_str (parser 0) k) 0 parser} (Callback.map_key k ∷ [])
            (callbacks (events x) ++ callbacks (entry_events es)) parser
            (Runs-one (Callback.map_key k) parser keyed refl (key-Counted k d parser at word))
            λ start zeroth.
              Runs-append (callbacks (events x)) (callbacks (entry_events es)) start
                (object-Runs x start d zeroth.depth (omega arith))
                λ middle first.
                  let (after, e, rest) =
                    entries-Runs es middle d first.depth (omega (arith, first.count))
                      (omega arith) in
                  let one =
                    Counted-trans d _ _ 0 1 1 parser start middle refl zeroth (
                      Counted-hash d _ _ 1 start middle (ap (hash_object x) zeroth.hashed) first) in
                  (
                    after,
                    e,
                    Counted-trans d _ _ 1 (count_entries es) _ parser middle after (omega arith) one
                        (Counted-hash d _ _ (count_entries es) middle after
                          (ap (hash_entries es) (first.hashed ∙ ap (hash_object x) zeroth.hashed))
                          rest),
                  ))
