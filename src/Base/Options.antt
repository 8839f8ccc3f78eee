-- ===== src/Base/Options.antt =====
-- Results that may be missing.
use mathlib.Core.Path.{◌≡◌, refl}
use mathlib.Core.Option.{Option, none, some}

abbrev pub and_then : {A B : Type 0} → Option A → (A → Option B) → Option B
and_then none k = none
and_then (some a) k = k a

pub regroup :
    {A B C : Type 0} (o : Option A) (f : A → Option B) (g : B → Option C) (k : A → Option C)
    → ((a : A) → and_then (f a) g ≡ k a)
    → and_then (and_then o f) g ≡ and_then o k
regroup none f g k e = refl
regroup (some a) f g k e = e a
