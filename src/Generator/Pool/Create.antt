-- ===== src/Generator/Pool/Create.antt =====
-- `object_create`: the object, and the block that holds its copy.
use schemaless_benchmarks.Base.{ℕ, ◌+◌, ◌%◌, ◌^◌, ◌≤◌, ◌≡◌, arith, []}
use schemaless_benchmarks.Generator.Outcome.{Ensures, holds, Ensures-bind}
use schemaless_benchmarks.Generator.Init.{Reals, sizeof_object, alignment, object_align}
use schemaless_benchmarks.Generator.Init.Generated.{IsGenerated, footprint}
use schemaless_benchmarks.Generator.Init.Total.{create_source-IsInit}
use schemaless_benchmarks.Generator.Pool.{Created, object_copy, object_create}
use schemaless_benchmarks.Generator.Pool.Layout.{
  Separate, Separate-append, object_copy-IsLaid, object_align_lem,
}

-- A created object: what the formats can carry, in blocks between `base` and the final pool, and an
-- allocated size that is the distance of the two, as a 64-bit word.
pub record IsCreated (base : ℕ) (created : Created) : Type 0 where
  pub generated : IsGenerated created.root
  pub separate : Separate base created.blocks created.pool
  pub extent : created.pool ≡ base + object_align sizeof_object + footprint created.root
  pub allocated :
      created.total_size % 2 ^ 64 ≡ (object_align sizeof_object + footprint created.root) % 2 ^ 64

-- For every seed and every size up to 5, at an aligned address, `object_create` divides by no zero and
-- stays within 32 levels. If the keys are found, its object has UTF-8 strings without nulls, numbers
-- from INT64_MIN to INT64_MAX and maps with different keys. The parts of the copy are aligned and do
-- not overlap; they end at the base plus the root's size and the object's footprint, and the allocated
-- size is that sum modulo 2 ^ 64.
pub object_create-IsCreated :
    (real : Reals) (retries base seed size : ℕ)
    → size ≤ 5
    → base % alignment ≡ 0
    → Ensures (IsCreated base) (object_create real retries base seed size)
unfolding object_create
object_create-IsCreated real retries base seed size small aligned =
    Ensures-bind (create_source-IsInit real retries seed size small) λ (src, total_size, random) p.
      let head : object_align sizeof_object ≡ 16 = object_align_lem sizeof_object (omega arith) in
      let pool = base + object_align sizeof_object in
      let laid = object_copy-IsLaid src pool p.generated (omega (arith, head)) in
      holds (record {
        generated = p.generated;
        separate = (
          omega arith,
          aligned,
          Separate-append (base + sizeof_object) pool (object_copy src pool).1 []
              (object_copy src pool).0 (omega (arith, head)) laid.separate,
        );
        extent = laid.ends;
        allocated = p.tracked;
      })
