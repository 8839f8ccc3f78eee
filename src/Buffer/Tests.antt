-- ===== src/Buffer/Tests.antt =====
-- A write into a fresh buffer, and one that has to grow.
use schemaless_benchmarks.Base.{Bool, ◌≡◌, refl, true, arith, some, [], ◌∷◌}
use schemaless_benchmarks.Buffer.{Buffer, grow, buffer_write}
use schemaless_benchmarks.Buffer.Write.{Wrote, buffer_write-Wrote}

abbrev small : Buffer
small = record { contents = 1 ∷ []; count = 1; capacity = 1 }

grown :
    buffer_write (λ size. true) small (2 ∷ 3 ∷ 4 ∷ [])
    ≡ some (true, record { contents = 1 ∷ 2 ∷ 3 ∷ 4 ∷ []; count = 4; capacity = 4 })
unfolding buffer_write grow
grown = refl

buffer_write-Wrote_example :
    (result : Bool × Buffer) × (buffer_write (λ size. true) small (2 ∷ 3 ∷ []) ≡ some result)
    × Wrote (λ size. true) small (2 ∷ 3 ∷ []) result
buffer_write-Wrote_example =
    buffer_write-Wrote (λ size. true) small (2 ∷ 3 ∷ []) (omega arith) (omega arith)
