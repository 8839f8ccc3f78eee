-- ===== src/Ubj/Write/Laws.antt =====
-- src/ubj/ubj-write.c: what its buffer holds when it reports a success.
use mathlib.Core.List.{append_assoc, append-nil}
use schemaless_benchmarks.Base.{
  and_then, regroup, ℕ, ◌+◌, ◌^◌, ◌≤◌, ◌<◌, ◌≡◌, refl, sym, ap, ◌∙◌, arith, Bool, Bool-cases, true,
  false, inl, inr, Option, some, List, [], ◌∷◌, ◌++◌, length, length-append, take, if◌then◌else◌,
}
use schemaless_benchmarks.Buffer.{Buffer, Realloc}
use schemaless_benchmarks.Buffer.Write.{IsValid, Wrote, appended, refused, buffer_write-Wrote}
use schemaless_benchmarks.Ubj.Write.{
  Call, Chunk, Ubjw, Output, error_fn, buffer_ubj_write, write_chunks, perform,
}

-- The first `count` bytes of each piece that the callback is given.
abbrev pub joined : List Chunk → List ℕ
joined [] = []
joined (chunk ∷ chunks) = take chunk.count chunk.data_bytes ++ joined chunks

-- What writing leaves: the buffer is valid and has grown by no more than the bytes; and if no error is noted after
-- it, none was before it, and the bytes stand behind those from before. Where `Fine` holds, no error comes up.
pub record Written (Fine : Type 0) (before : Output) (bytes : List ℕ) (after : Output)
    : Type 0 where
  pub valid : IsValid after.buffer
  pub small : after.buffer.count ≤ before.buffer.count + length bytes
  pub whole :
      after.error_occurred ≡ false
      → (before.error_occurred ≡ false) × (after.buffer.contents ≡ before.buffer.contents ++ bytes)
  pub clean : Fine → before.error_occurred ≡ false → after.error_occurred ≡ false

pub Written-nothing :
    (Fine : Type 0) (output : Output) → IsValid output.buffer → Written Fine output [] output
Written-nothing Fine output v = record {
  valid = v;
  small = omega arith;
  whole = λ clear. (clear, sym (append-nil output.buffer.contents));
  clean = λ fine clear. clear;
}

pub Written-append :
    (Fine : Type 0) (a b c : Output) (xs ys : List ℕ)
    → Written Fine a xs b
    → Written Fine b ys c
    → Written Fine a (xs ++ ys) c
Written-append Fine a b c xs ys p q = record {
  valid = q.valid;
  small = omega (arith, p.small, q.small, length-append xs ys);
  whole = λ clear.
      let (clear', second) = q.whole clear in
      let (clear'', first) = p.whole clear' in
      (clear'', second ∙ (ap (λ l. l ++ ys) first ∙ append_assoc a.buffer.contents xs ys));
  clean = λ fine clear. q.clean fine (p.clean fine clear);
}

-- Noting an error keeps the buffer.
Written-error :
    (Fine : Type 0) (a b : Output) (xs : List ℕ)
    → ¬ Fine
    → Written Fine a xs b
    → Written Fine a xs (error_fn b)
Written-error Fine a b xs bad p = record {
  valid = p.valid;
  small = p.small;
  whole = λ clear. absurd cc;
  clean = λ fine clear. absurd (bad fine);
}

result-Written :
    (Fine : Type 0) (realloc : Realloc) (output : Output) (bytes : List ℕ) (result : Bool × Buffer)
    → (Fine → (size : ℕ) → realloc size ≡ true)
    → IsValid output.buffer
    → Wrote realloc output.buffer bytes result
    → Written Fine output bytes (
        if result.0
        then record output { buffer = result.1 }
        else error_fn (record output { buffer = result.1 }))
result-Written Fine realloc output bytes _ grants v (appended after same valid grown) =
    let count : length after.contents ≡ length (output.buffer.contents ++ bytes) = ap length same in
    record {
      valid = valid;
      small =
          omega
            (arith, count, valid.counted, v.counted, length-append output.buffer.contents bytes);
      whole = λ clear. (clear, same);
      clean = λ fine clear. clear;
    }
result-Written Fine realloc output bytes _ grants v (refused size full enough refusal) = record {
  valid = v;
  small = omega arith;
  whole = λ clear. absurd cc;
  clean = λ fine clear. absurd (let g = grants fine size in cc);
}

chunk-Written :
    (Fine : Type 0) (realloc : Realloc) (output : Output) (chunk : Chunk)
    → (Fine → (size : ℕ) → realloc size ≡ true)
    → IsValid output.buffer
    → output.buffer.count + length (take chunk.count chunk.data_bytes) < 2 ^ 62
    → (after : Output) × (buffer_ubj_write realloc chunk.data_bytes chunk.size chunk.count output
        ≡ some after)
      × Written Fine output (take chunk.count chunk.data_bytes) after
unfolding buffer_ubj_write
chunk-Written Fine realloc output chunk grants v small =
    let bytes = take chunk.count chunk.data_bytes in
    let (result, e, wrote) = buffer_write-Wrote realloc output.buffer bytes v small in
    (
      _,
      rw (buffer_ubj_write, e) refl,
      result-Written Fine realloc output bytes result grants v wrote,
    )

chunks-Written :
    (Fine : Type 0) (realloc : Realloc) (chunks : List Chunk) (output : Output)
    → (Fine → (size : ℕ) → realloc size ≡ true)
    → IsValid output.buffer
    → output.buffer.count + length (joined chunks) < 2 ^ 62
    → (after : Output) × (write_chunks realloc chunks output ≡ some after)
      × Written Fine output (joined chunks) after
unfolding write_chunks
chunks-Written Fine realloc [] output grants v small = (output, refl, Written-nothing Fine output v)
chunks-Written Fine realloc (chunk ∷ chunks) output grants v small =
    let bytes = take chunk.count chunk.data_bytes in
    let (middle, e, first) =
      chunk-Written Fine realloc output chunk grants v
        (omega (arith, small, length-append bytes (joined chunks))) in
    let (after, e', rest) =
      chunks-Written Fine realloc chunks middle grants first.valid
        (omega (arith, small, first.small, length-append bytes (joined chunks))) in
    (
      after,
      rw (and_then, e) e',
      Written-append Fine output middle after bytes (joined chunks) first rest,
    )

module _ {L : Type 0} (ubjw : Ubjw L) (realloc : Realloc) where
  -- Calls one after the other.
  unfoldable pub perform_calls : List Call → L × Output → Option (L × Output)
  perform_calls [] state = some state
  perform_calls (c ∷ cs) state = and_then (perform ubjw realloc c state) (perform_calls cs)

  -- The first `count` bytes of each piece that ubj gives to the callback in these calls.
  unfoldable pub trace : L → List Call → List ℕ
  trace l [] = []
  trace l (c ∷ cs) = joined (ubjw.chunks l c) ++ trace (ubjw.after l c) cs

  pub calls_before_calls :
      (cs ds : List Call) (state : L × Output)
      → and_then (perform_calls cs state) (perform_calls ds) ≡ perform_calls (cs ++ ds) state
  unfolding perform_calls
  calls_before_calls [] ds state = refl
  calls_before_calls (c ∷ cs) ds state =
      regroup (perform ubjw realloc c state) (perform_calls cs) (perform_calls ds)
        (perform_calls (cs ++ ds)) (calls_before_calls cs ds)

module _ {L : Type 0} (ubjw : Ubjw L) (realloc : Realloc) (Fine : Type 0)
    (grants : Fine → (size : ℕ) → realloc size ≡ true)
    (calm : Fine → (l : L) (c : Call) → ubjw.complains l c ≡ false) where
  pub perform-Written :
      (c : Call) (l : L) (output : Output)
      → IsValid output.buffer
      → output.buffer.count + length (joined (ubjw.chunks l c)) < 2 ^ 62
      → (after : Output) × (perform ubjw realloc c (l, output) ≡ some (ubjw.after l c, after))
        × Written Fine output (joined (ubjw.chunks l c)) after
  unfolding perform
  perform-Written c l output v small =
      let (written, e, w) = chunks-Written Fine realloc (ubjw.chunks l c) output grants v small in
      elim (Bool-cases (ubjw.complains l c)) [
        | inl bad ↦ (
          error_fn written,
          rw (and_then, e, bad) refl,
          Written-error Fine output written (joined (ubjw.chunks l c))
              (λ fine. let g = calm fine l c in absurd cc) w,
        )
        | inr fine ↦ (written, rw (and_then, e, fine) refl, w)
      ]

  pub calls-Written :
      (cs : List Call) (l : L) (output : Output)
      → IsValid output.buffer
      → output.buffer.count + length (trace ubjw realloc l cs) < 2 ^ 62
      → (state : L × Output) × (perform_calls ubjw realloc cs (l, output) ≡ some state)
        × Written Fine output (trace ubjw realloc l cs) state.1
  unfolding perform_calls trace
  calls-Written [] l output v small = ((l, output), refl, Written-nothing Fine output v)
  calls-Written (c ∷ cs) l output v small =
      let first_bytes = joined (ubjw.chunks l c) in
      let other_bytes = trace ubjw realloc (ubjw.after l c) cs in
      let (middle, e, first) =
        perform-Written c l output v
          (omega (arith, small, length-append first_bytes other_bytes)) in
      let (state, e', rest) =
        calls-Written cs (ubjw.after l c) middle first.valid
          (omega (arith, small, first.small, length-append first_bytes other_bytes)) in
      (
        state,
        rw (and_then, e) e',
        Written-append Fine output middle state.1 first_bytes other_bytes first rest,
      )
