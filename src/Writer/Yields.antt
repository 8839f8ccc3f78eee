-- ===== src/Writer/Yields.antt =====
-- A writing function that succeeds, with what holds of the writer after it.
use schemaless_benchmarks.Base.{◌≡◌, true}
use schemaless_benchmarks.Writer.{Writing, ◌>>◌}

-- A call succeeds, and this holds of the writer after it.
abbrev pub Yields : {B : Type 0} → Writing B → B → (B → Type 0) → Type 0
Yields m b After = (b' : _) × (m b ≡ (true, b')) × After b'

pub then-Yields :
    {B : Type 0} (m k : Writing B) (b : B) (Middle After : B → Type 0)
    → Yields m b Middle
    → ((b' : B) → Middle b' → Yields k b' After)
    → Yields (m >> k) b After
then-Yields m k b Middle After (b', e, p) rest = let (b'', e', q) = rest b' p in (b'', rw e e', q)
