-- ===== src/Bson/Append/Samples.antt =====
-- A library whose documents are their elements.
use schemaless_benchmarks.Base.{ℕ, ◌+◌, ◌%◌, ◌≡◌, refl, arith, List, [], ◌∷◌}
use schemaless_benchmarks.Parser.{Members, leaf, list, object, no_members, member}
use schemaless_benchmarks.Bson.Iter.{Leaf, null, elements_of}
use schemaless_benchmarks.Bson.Append.{Bson}
use schemaless_benchmarks.Bson.Append.Laws.{append_members, Keeps}

-- The parent of a child that was begun has its key in front.
abbrev begin : List ℕ → Members Leaf → Members Leaf × Members Leaf
begin k ms = (member k (leaf null) ms, no_members)

abbrev end_document : Members Leaf → Members Leaf → Members Leaf
end_document no_members child = child
end_document (member k t ms) child = append_members ms (member k (object child) no_members)

abbrev end_array : Members Leaf → Members Leaf → Members Leaf
end_array no_members child = child
end_array (member k t ms) child = append_members ms (member k (list (elements_of child)) no_members)

abbrev pub toy : Bson (Members Leaf)
toy = record {
  initializer = no_members;
  append = λ k l ms. append_members ms (member k (leaf l) no_members);
  document_begin = begin;
  document_end = end_document;
  array_begin = begin;
  array_end = end_array;
  index_name = λ i. (48 + i % 10) ∷ [];
  data_of = λ b. 1 ∷ 2 ∷ [];
}

pub toy_keeps : Keeps toy
toy_keeps = record {
  Holds = λ b ms. b ≡ ms;
  starts = refl;
  named = λ i. ((omega arith, omega arith), tt);
  zeroth = refl;
  appended = λ k l b ms c h. rw h refl;
  document_begun = λ k b ms c h. refl;
  document_ended = λ k b child ms ns c h held. rw (h, held) refl;
  array_begun = λ k b ms c h. refl;
  array_ended = λ k b child ms ns c h held. rw (h, held) refl;
}
