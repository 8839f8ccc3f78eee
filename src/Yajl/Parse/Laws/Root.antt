-- ===== src/Yajl/Parse/Laws/Root.antt =====
-- The callbacks for a whole object, from its root.
use schemaless_benchmarks.Base.{
  Bool, ℕ, ◌+◌, ◌≤◌, ◌≡◌, refl, ap, ◌∙◌, arith, List, [], ◌∷◌, ◌++◌, u32, pos,
}
use schemaless_benchmarks.Hash.{hash_bool, hash_double, hash_i64, hash_nil, hash_str, hash_u32}
use schemaless_benchmarks.HashObject.{hash_object, hash_elements, hash_entries}
use schemaless_benchmarks.HashObject.Laws.{hash_i64-pos}
use schemaless_benchmarks.Object.{
  Object, nil, bool, double, int, uint, str, array, map, count_elements, count_entries,
}
use schemaless_benchmarks.Writer.{events, element_events, entry_events, end_array, end_map}
use schemaless_benchmarks.Yajl.Parse.{
  Memory, Callback, dispatch, parse_start_compound, parse_end_compound, parser_init,
}
use schemaless_benchmarks.Yajl.Parse.Laws.Steps.{
  Counted, root_counted, root_start, root-Started, RootStarted, root_level, root_level-small,
  root-ends,
}
use schemaless_benchmarks.Object.Nesting.{nesting}
use schemaless_benchmarks.Yajl.Parse.Laws.Deep.{callbacks, callbacks-append}
use schemaless_benchmarks.Yajl.Parse.Laws.Run.{
  Runs, Runs-append, Runs-one, elements-Runs, entries-Runs,
}

module _ (in_register : Bool) where
  -- A container at the root, whose children stand at the level of the root.
  root-Runs :
      (n : ℕ) (open' close : Callback) (cs : List Callback) (hash : ℕ) (mix : ℕ → ℕ) (rest : Memory)
      → ((m : Memory) → dispatch in_register open' m ≡ parse_start_compound in_register m)
      → ((m : Memory) → dispatch in_register close m ≡ parse_end_compound m)
      → ((q : Memory)
          → RootStarted (root_level in_register) hash q
          → Runs in_register cs q (Counted (root_level in_register) (mix (q 0)) n q))
      → Runs in_register
          (open' ∷ (cs ++ close ∷ []))
          (parser_init hash rest)
          (λ after. after 0 ≡ hash_u32 (mix hash) (u32 n))
  root-Runs n open' close cs hash mix rest opens closes body =
      let level = root_level in_register in
      let (starts, root) = root-Started in_register hash rest in
      Runs-append in_register (open' ∷ []) (cs ++ close ∷ []) (parser_init hash rest)
        (Runs-one in_register open' (parser_init hash rest) (root_start in_register hash rest)
          (opens _ ∙ starts) root)
        λ q s. Runs-append in_register cs (close ∷ []) q (body q s) λ after c.
          let (m, e, hashed) = root-ends after level c.depth (root_level-small in_register) in
          let none_before : q (2 + level) ≡ 0 = s.empty in
          let counted : after (2 + level) ≡ u32 n = omega (arith, c.count, none_before) in
          Runs-one in_register close after m (closes after ∙ e) (
            hashed
            ∙ (ap (λ h. hash_u32 h (after (2 + level))) (c.hashed ∙ ap mix s.hashed)
                ∙ ap (λ k. hash_u32 (mix hash) k) counted))

  -- The callbacks for an object from a parser that was just set up give its hash.
  pub document-Runs :
      (o : Object) (hash : ℕ) (rest : Memory)
      → nesting o ≤ 31
      → Runs in_register
          (callbacks (events o))
          (parser_init hash rest)
          (λ after. after 0 ≡ hash_object o hash)
  unfolding events callbacks nesting dispatch hash_object
  document-Runs (array xs) hash rest room =
      rw (callbacks-append (element_events xs) (end_array ∷ [])) (
        root-Runs (count_elements xs) Callback.start_array Callback.end_array
          (callbacks (element_events xs)) hash (hash_elements xs) rest (λ m. refl) (λ m. refl)
          (λ q s.
            elements-Runs in_register xs q (root_level in_register) s.depth (omega (arith, s.empty))
              (omega (arith, root_level-small in_register))))
  document-Runs (map es) hash rest room = rw (callbacks-append (entry_events es) (end_map ∷ [])) (
      root-Runs (count_entries es) Callback.start_map Callback.end_map (callbacks (entry_events es))
        hash (hash_entries es) rest (λ m. refl) (λ m. refl)
        (λ q s.
          entries-Runs in_register es q (root_level in_register) s.depth (omega (arith, s.empty))
            (omega (arith, root_level-small in_register))))
  document-Runs nil hash rest room =
      Runs-one in_register _ _ _ refl (ap hash_nil (root_counted hash rest 0))
  document-Runs (bool b) hash rest room =
      Runs-one in_register _ _ _ refl (ap (λ h. hash_bool h b) (root_counted hash rest 0))
  document-Runs (double x) hash rest room =
      Runs-one in_register _ _ _ refl (ap (λ h. hash_double h x) (root_counted hash rest 0))
  document-Runs (int i) hash rest room =
      Runs-one in_register _ _ _ refl (ap (λ h. hash_i64 h i) (root_counted hash rest 0))
  document-Runs (uint u) hash rest room =
      Runs-one in_register _ _ _ refl
        (ap (λ h. hash_i64 h (pos u)) (root_counted hash rest 0) ∙ hash_i64-pos hash u)
  document-Runs (str s) hash rest room =
      Runs-one in_register _ _ _ refl (ap (λ h. hash_str h s) (root_counted hash rest 0))
