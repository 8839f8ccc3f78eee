-- ===== src/Generator/Init/Total.antt =====
-- `object_init` as a whole: no division by zero, no recursion deeper than 32 levels, objects that the
-- formats can carry, and a total that is the size of the copy.
use schemaless_benchmarks.Base.{
  ℕ, zero, suc, ◌+◌, ◌-◌, ◌*◌, ◌%◌, ◌^◌, ◌≤◌, ◌<◌, ◌≡◌, refl, ap, arith, List, [], ◌∷◌, length, u64,
}
use native.Mathlib.Nat.{pow-le-pow_right}
use schemaless_benchmarks.Object.{Object, Elements, Entries, count_elements, count_entries}
use schemaless_benchmarks.Random.{Random, random_seed}
use schemaless_benchmarks.Random.Next.{IsState, random_seed-IsState}
use schemaless_benchmarks.Random.Inverse.{next-IsState}
use schemaless_benchmarks.Generator.Outcome.{Outcome, Ensures, holds, Ensures-bind}
use schemaless_benchmarks.Generator.Text.Utf8.{random_string-IsUtf8}
use schemaless_benchmarks.Generator.Text.State.{random_string-IsState}
use schemaless_benchmarks.Generator.Kind.{Kind}
use schemaless_benchmarks.Generator.Kind.Range.{Fits, random_type-IsDraw}
use schemaless_benchmarks.Generator.Init.{
  Reals, Sized, object_align, sizeof_object, init_elements, init_entries, init_kind, object_init,
  create_source,
}
use schemaless_benchmarks.Generator.Init.Generated.{
  IsGenerated, AreGenerated, AreGeneratedEntries, footprint, footprint_elements, footprint_entries,
}
use schemaless_benchmarks.Generator.Init.Numbers.{
  unused_key-Ensures, random_uint-Ensures, random_int-Ensures, random_double-IsState,
}

-- An object of the generator, with the total before it and what comes after it.
pub record IsInit (total : ℕ) (result : Sized Object) : Type 0 where
  pub generated : IsGenerated result.0
  pub tracked : result.1 % 2 ^ 64 ≡ (total + footprint result.0) % 2 ^ 64
  pub state : IsState result.2

record IsInitElements (n total : ℕ) (result : Sized Elements) : Type 0 where
  generated : AreGenerated result.0
  counted : count_elements result.0 ≡ n
  tracked : result.1 % 2 ^ 64 ≡ (total + footprint_elements result.0) % 2 ^ 64
  state : IsState result.2

record IsInitEntries (n : ℕ) (used : List (List ℕ)) (total : ℕ) (result : Sized Entries)
    : Type 0 where
  generated : AreGeneratedEntries used result.0
  counted : count_entries result.0 ≡ n
  tracked : result.1 % 2 ^ 64 ≡ (total + footprint_entries result.0) % 2 ^ 64
  state : IsState result.2

-- The loops, for an `init` that keeps its promise.
module _ (init : ℕ → Random → Outcome (Sized Object))
    (promise : (total : ℕ) (random : Random)
      → IsState random
      → Ensures (IsInit total) (init total random)) where
  elements-Ensures :
      (n total : ℕ) (random : Random)
      → IsState random
      → Ensures (IsInitElements n total) (init_elements init n total random)
  unfolding init_elements IsGenerated footprint
  elements-Ensures zero total random h =
      holds (record { generated = tt; counted = refl; tracked = omega arith; state = h })
  elements-Ensures (suc n) total random h =
      Ensures-bind (promise total random h) λ (x, total₁, random₁) p.
        Ensures-bind (elements-Ensures n total₁ random₁ p.state) λ (xs, total₂, random₂) q.
          holds (record {
            generated = (p.generated, q.generated);
            counted = ap suc q.counted;
            tracked = omega (arith, p.tracked, q.tracked);
            state = q.state;
          })

  entries-Ensures :
      (retries n : ℕ) (used : List (List ℕ)) (total : ℕ) (random : Random)
      → IsState random
      → Ensures (IsInitEntries n used total) (init_entries retries init n used total random)
  unfolding init_entries IsGenerated footprint
  entries-Ensures retries zero used total random h =
      holds (record { generated = tt; counted = refl; tracked = omega arith; state = h })
  entries-Ensures retries (suc n) used total random h =
      Ensures-bind (unused_key-Ensures retries used random h) λ (key, random₁) k.
        Ensures-bind (promise _ random₁ k.2) λ (x, total₁, random₂) p.
          Ensures-bind (entries-Ensures retries n (key ∷ used) total₁ random₂ p.state)
            λ (es, total₂, random₃) q.
              let same : u64 (length key + 1) ≡ length key + 1 = omega (arith, k.0) in
              holds (record {
                generated = (k.0, k.1, p.generated, q.generated);
                counted = ap suc q.counted;
                tracked = omega (arith, p.tracked, q.tracked, ap object_align same);
                state = q.state;
              })

-- The promise of `object_init` one level down, where there is one.
abbrev Promise : ℕ → (ℕ → Random → Outcome (Sized Object)) → Type 0
Promise depth init =
    depth < 31
    → (total : ℕ) (random : Random) → IsState random
    → Ensures (IsInit total) (init total random)

levels : (size depth : ℕ) → size ≤ 5 → 2 ^ (size - depth) ≤ 32
levels size depth h = pow-le-pow_right (omega arith) {i = size - depth} {j = 5} (omega arith)

-- The `switch`, for a type and a length that were drawn together.
kind-Ensures :
    (init : ℕ → Random → Outcome (Sized Object)) (real : Reals) (retries size depth : ℕ)
    (kind : Kind) (n total : ℕ) (random : Random)
    → size ≤ 5
    → Promise depth init
    → Fits size depth kind n
    → IsState random
    → Ensures (IsInit total) (init_kind real retries init kind n total random)
unfolding init_kind IsGenerated footprint
kind-Ensures init real retries size depth Kind.nil n total random small promise f h =
    holds (record { generated = tt; tracked = omega arith; state = h })
kind-Ensures init real retries size depth Kind.bool n total random small promise f h =
    holds (record { generated = tt; tracked = omega arith; state = next-IsState random h })
kind-Ensures init real retries size depth Kind.double n total random small promise f h =
    holds (record {
      generated = tt;
      tracked = omega arith;
      state = random_double-IsState real random h;
    })
kind-Ensures init real retries size depth Kind.int n total random small promise f h =
    Ensures-bind (random_int-Ensures random h)
      λ (i, random₁) p. holds (record { generated = p.0; tracked = omega arith; state = p.1 })
kind-Ensures init real retries size depth Kind.uint n total random small promise f h =
    Ensures-bind (random_uint-Ensures random h)
      λ (u, random₁) p. holds (record { generated = p.0; tracked = omega arith; state = p.1 })
kind-Ensures init real retries size depth Kind.str n total random small promise f h =
    let text = random_string-IsUtf8 random n in
    holds (record {
      generated = (text.0, omega (arith, text.1, f.1));
      tracked = omega (arith, ap (λ (l : ℕ). object_align (l + 1)) text.1);
      state = random_string-IsState random n h;
    })
kind-Ensures init real retries size depth Kind.array n total random small promise f h =
    Ensures-bind (elements-Ensures init (promise f.0) n _ random h) λ (xs, total₁, random₁) p.
      holds (record {
        generated = (omega (arith, f.2, p.counted, levels size depth small), p.generated);
        tracked =
            omega (arith, p.tracked, ap (λ (l : ℕ). object_align (l * sizeof_object)) p.counted);
        state = p.state;
      })
kind-Ensures init real retries size depth Kind.map n total random small promise f h =
    Ensures-bind (entries-Ensures init (promise f.0) retries n [] _ random h)
      λ (es, total₁, random₁) p. holds (record {
        generated = (omega (arith, f.2, p.counted, levels size depth small), p.generated);
        tracked =
            omega
              (arith, p.tracked, ap (λ (l : ℕ). object_align (2 * l * sizeof_object)) p.counted);
        state = p.state;
      })

object_init-Ensures :
    (real : Reals) (retries fuel size depth total : ℕ) (random : Random)
    → size ≤ 5
    → 32 ≤ fuel + depth
    → depth < 32
    → IsState random
    → Ensures (IsInit total) (object_init real retries fuel size depth total random)
unfolding object_init
object_init-Ensures real retries zero size depth total random small f d h = absurd (omega arith)
object_init-Ensures real retries (suc fuel) size depth total random small f d h =
    let (draw, e, drawn) = random_type-IsDraw size depth random h in
    rw e (
      kind-Ensures (object_init real retries fuel size (depth + 1)) real retries size depth
        draw.kind draw.length total draw.random small
        (λ shallow total' random' h'.
          object_init-Ensures real retries fuel size (depth + 1) total' random' small (omega arith)
            (omega arith) h')
        drawn.fits drawn.state)

-- For a size up to 5, at any depth below 32, with fuel for the levels down to 32 and from any state, `object_init`
-- divides by no zero and stays within 32 levels. If the keys are found, its object has UTF-8 strings without nulls,
-- numbers from INT64_MIN to INT64_MAX, maps with keys of 2 to 10 lowercase letters that differ, and the total grows
-- by the bytes that the object's parts take, modulo 2 ^ 64.
pub object_init-IsInit :
    (real : Reals) (retries fuel size depth total : ℕ) (random : Random)
    → size ≤ 5
    → 32 ≤ fuel + depth
    → depth < 32
    → IsState random
    → Ensures (IsInit total) (object_init real retries fuel size depth total random)
object_init-IsInit = object_init-Ensures

pub create_source-IsInit :
    (real : Reals) (retries seed size : ℕ)
    → size ≤ 5
    → Ensures (IsInit (object_align sizeof_object)) (create_source real retries seed size)
unfolding create_source
create_source-IsInit real retries seed size small =
    object_init-Ensures real retries 32 size 0 _ (random_seed seed) small (omega arith)
      (omega arith) (random_seed-IsState seed).0
