-- ===== src/Buffer/Growth.antt =====
-- The loop that doubles the capacity.
use native.Mathlib.Nat.{pow-suc}
use schemaless_benchmarks.Base.{
  ℕ, zero, suc, ◌*◌, ◌^◌, ◌≤◌, ◌<◌, ◌≡◌, refl, ap, arith, Bool-cases, inl, inr, some, ltb, ltb→lt,
  u64, false,
}
use schemaless_benchmarks.Buffer.{grow}

-- Where doubling once for each unit of fuel is enough and no round wraps, the loop ends with a capacity
-- that is enough and less than twice what is needed, or the one that it began with.
pub grow_lem :
    (fuel needed capacity : ℕ)
    → 0 < capacity
    → needed < 2 ^ 62
    → capacity < 2 ^ 63
    → needed ≤ capacity * 2 ^ fuel
    → (c : ℕ) × (grow (suc fuel) needed capacity ≡ some c)
      × (needed ≤ c)
      × (capacity ≤ c)
      × (c < 2 ^ 63)
unfolding grow
grow_lem zero needed capacity p small q h =
    let done : ltb capacity needed ≡ false = ground arith in
    rw done (capacity, refl, omega arith, omega arith, q)
grow_lem (suc fuel) needed capacity p small q h = elim (Bool-cases (ltb capacity needed)) [
  | inr done ↦ rw done (capacity, refl, ground arith, omega arith, q)
  | inl more ↦
      let below = ltb→lt capacity needed more in
      let exact : u64 (capacity * 2) ≡ capacity * 2 = omega arith in
      let room : needed ≤ capacity * 2 * 2 ^ fuel =
        omega (arith, ap (λ (t : ℕ). capacity * t) (pow-suc 2 fuel)) in
      let (c, e, enough, grown, fits) =
        grow_lem fuel needed (capacity * 2) (omega arith) small (omega arith) room in
      rw (more, exact) (c, e, enough, omega arith, fits)
]
