-- ===== src/Yajl/Parse/Laws/Deep.antt =====
-- The callbacks for a document.
use schemaless_benchmarks.Base.{◌≡◌, refl, ap, List, [], ◌∷◌, ◌++◌, pos}
use schemaless_benchmarks.Writer
use schemaless_benchmarks.Writer.{Event}
use schemaless_benchmarks.Yajl.Parse.{Callback}

-- The callback for an event: JSON does not tell signed and unsigned numbers apart, and gives no counts.
abbrev pub callback : Event → Callback
callback Writer.null = Callback.null
callback (Writer.boolean b) = Callback.boolean b
callback (Writer.real d) = Callback.double d
callback (Writer.signed i) = Callback.integer i
callback (Writer.unsigned u) = Callback.integer (pos u)
callback (Writer.text s) = Callback.string s
callback (Writer.begin_array n) = Callback.start_array
callback Writer.end_array = Callback.end_array
callback (Writer.begin_map n) = Callback.start_map
callback (Writer.key k) = Callback.map_key k
callback Writer.end_map = Callback.end_map

unfoldable pub callbacks : List Event → List Callback
callbacks [] = []
callbacks (e ∷ es) = callback e ∷ callbacks es

pub callbacks-append : (es fs : List Event) → callbacks (es ++ fs) ≡ callbacks es ++ callbacks fs
unfolding callbacks
callbacks-append [] fs = refl
callbacks-append (e ∷ es) fs = ap (λ cs. callback e ∷ cs) (callbacks-append es fs)
