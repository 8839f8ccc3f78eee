-- ===== src/Writer/Bytes.antt =====
-- The bytes of the calls for a sequence of events, taken apart.
use mathlib.Core.List.{append_assoc, append-nil}
use schemaless_benchmarks.Base.{ℕ, ◌≡◌, refl, sym, ap, ◌∙◌, List, [], ◌∷◌, ◌++◌}
use schemaless_benchmarks.Writer.{Event, encode_all, bytes_all}
use schemaless_benchmarks.Writer.Laws.{encode_all-append}

module _ {C : Type 0} (encode : Event → List C) (bytes_of : C → List ℕ) where
  abbrev pub bytes : List Event → List ℕ
  bytes es = bytes_all bytes_of (encode_all encode es)

  bytes_all-append :
      (cs ds : List C)
      → bytes_all bytes_of (cs ++ ds) ≡ bytes_all bytes_of cs ++ bytes_all bytes_of ds
  unfolding bytes_all
  bytes_all-append [] ds = refl
  bytes_all-append (c ∷ cs) ds =
      rw (bytes_all-append cs ds)
        (sym (append_assoc (bytes_of c) (bytes_all bytes_of cs) (bytes_all bytes_of ds)))

  pub bytes-append :
      (es fs : List Event) (rest : List ℕ)
      → bytes (es ++ fs) ++ rest ≡ bytes es ++ (bytes fs ++ rest)
  bytes-append es fs rest =
      rw
        (
          encode_all-append encode es fs,
          bytes_all-append (encode_all encode es) (encode_all encode fs),
        )
        (append_assoc (bytes es) (bytes fs) rest)

  -- The bytes of one call.
  pub one_call :
      (e : Event) (c : C) (rest : List ℕ)
      → encode e ≡ c ∷ []
      → bytes (e ∷ []) ++ rest ≡ bytes_of c ++ rest
  unfolding bytes_all encode_all
  one_call e c rest only = rw (only, append-nil (bytes_of c)) refl

  -- The bytes of a call, of the events inside, and of an event at the end that has no bytes.
  pub compound :
      (e f : Event) (c : C) (es : List Event) (rest : List ℕ)
      → encode e ≡ c ∷ []
      → bytes (f ∷ []) ≡ []
      → bytes (e ∷ (es ++ f ∷ [])) ++ rest ≡ bytes_of c ++ (bytes es ++ rest)
  compound e f c es rest opens closes =
      bytes-append (e ∷ []) (es ++ f ∷ []) rest
      ∙ (one_call e c (bytes (es ++ f ∷ []) ++ rest) opens
          ∙ ap (λ b. bytes_of c ++ b) (bytes-append es (f ∷ []) rest ∙ rw closes refl))
