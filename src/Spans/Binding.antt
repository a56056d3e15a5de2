-- ===== src/Spans/Binding.antt =====
-- src/spans.rs: the spans that the index leads to cut the documents, in every store that `new` and
-- `add_document` lead to.
use subnext.Prelude.{
  ◌≡◌, refl, sym, subst, ℕ, ◌≤◌, ◌<◌, Option, List, [], ◌∷◌, ◌++◌, length, length-append, map,
  get_or, ltb, arith, Bool-cases, inl, inr,
}
use subnext.Ids.{Clock, tick}
use subnext.Text.Split.{Split}
use subnext.Spans.{
  Span, Document, RawStore, ok, new, blank_document, chunk, id_for, push_document, add_document,
  span_at,
}
use subnext.Spans.Chunk.{Unaddressed, chunk-Split}
use subnext.Spans.Stored.{
  Stored, get_or-left, get_or-here, ends, made, positions, Below, Below-more, Below-positions,
  map-ends, length-made, push_document-lem, map-kept, map-made, add_document-cases,
}
use subnext.Spans.Indexed.{Reached, IsIndexed, Reached-IsIndexed}

-- The listed spans cut the text of a document.
unfoldable pub Cuts : List Span → Document → List ℕ → Type 0
Cuts spans document idxs =
    Below (length spans) idxs
    × Split Unaddressed 0 document.text (map ends (map (span_at spans) idxs))

-- The spans of every document cut its text.
pub record IsBound (st : RawStore) : Type 0 where
  pub cuts :
      (p : ℕ)
      → p < length st.documents
      → Cuts st.spans (get_or st.documents p blank_document) (get_or st.doc_spans p [])

new-IsBound : (limit : ℕ) → IsBound (new limit)
new-IsBound limit = record { cuts = λ p h. absurd (omega arith) }

-- Spans that are pushed leave the others where they are.
Cuts-kept :
    (spans more : List Span) (document : Document) (idxs : List ℕ)
    → Cuts spans document idxs
    → Cuts (spans ++ more) document idxs
unfolding Cuts
Cuts-kept spans more document idxs (below, cut) = (
  Below-more (length spans) (length (spans ++ more)) idxs below
      (omega (arith, length-append spans more)),
  subst (λ t. Split Unaddressed 0 document.text (map ends t)) (sym (map-kept spans more idxs below))
      cut,
)

Cuts-made :
    (limit : ℕ) (spans : List Span) (document : Document) (doc_id : List ℕ) (ts : ℕ)
    → let ranges = chunk limit document.text in
      Cuts (spans ++ made doc_id ts 0 ranges) document (positions (length spans) ranges)
unfolding Cuts
Cuts-made limit spans document doc_id ts =
    let ranges = chunk limit document.text in
    (
      Below-positions _ (length spans) ranges (
          omega
            (arith, length-append spans (made doc_id ts 0 ranges), length-made doc_id ts 0 ranges)),
      rw (map-made spans doc_id ts 0 (length spans) ranges refl, map-ends doc_id ts 0 ranges)
          (chunk-Split limit document.text),
    )

last_position :
    (p : ℕ) (documents : List Document) (document : Document)
    → length documents ≤ p
    → p < length (documents ++ (document ∷ []))
    → p ≡ length documents
last_position p documents document h k = omega (arith, length-append documents (document ∷ []))

push_document-IsBound :
    (st : RawStore) (text doc_id : List ℕ) (source : Option (List ℕ)) (ts : ℕ)
    → IsIndexed st
    → IsBound st
    → IsBound (push_document st text doc_id source ts).0
push_document-IsBound st text doc_id source ts x b =
    let (documents, index, spans, lists, ids) = push_document-lem st text doc_id source ts in
    let ranges = chunk st.max_span_chars text in
    let document : Document = record { id = doc_id; text = text; ts = ts; source = source } in
    let idxs = positions (length st.spans) ranges in
    record {
      cuts = λ p h.
          rw (documents, spans, lists)
            (elim (Bool-cases (ltb p (length st.documents))) [
              | inl old ↦
                  let lt : p < length st.documents = ground arith in
                  rw
                    (
                      get_or-left st.documents (document ∷ []) p blank_document lt,
                      get_or-left st.doc_spans (idxs ∷ []) p [] (omega (arith, x.same_length)),
                    )
                    (Cuts-kept st.spans (made doc_id ts 0 ranges) _ _ (b.cuts p lt))
              | inr last ↦
                  let last_one : p ≡ length st.documents =
                    last_position p st.documents document (ground arith)
                      (subst (λ t. p < length t) documents h) in
                  rw
                    (
                      get_or-here st.documents document [] p blank_document last_one,
                      get_or-here st.doc_spans idxs [] p [] (omega (arith, x.same_length)),
                    )
                    (Cuts-made st.max_span_chars st.spans document doc_id ts)
            ]);
    }

add_document-IsBound :
    (st : RawStore) (text : List ℕ) (id source : Option (List ℕ)) (clock : Clock)
    (r : RawStore × Clock × List ℕ)
    → IsIndexed st
    → IsBound st
    → add_document st text id source clock ≡ ok r
    → IsBound r.0
add_document-IsBound st text id source clock r x b h =
    elim (add_document-cases st text id source clock r h) [
      | inl (fresh, e) ↦
          rw e (push_document-IsBound st text (id_for id text) source (tick clock).1 x b)
      | inr (p, bound, same, e) ↦ rw e b
    ]

pub Stored-Reached : {st : RawStore} → Stored st → Reached st
Stored-Reached (Stored.begins limit) = Reached.begins limit
Stored-Reached (Stored.adds text id source clock r s h) =
    Reached.adds text id source clock r (Stored-Reached s) h

pub Stored-IsBound : {st : RawStore} → Stored st → IsBound st
Stored-IsBound (Stored.begins limit) = new-IsBound limit
Stored-IsBound (Stored.adds {st = st} text id source clock r s h) =
    add_document-IsBound st text id source clock r (Reached-IsIndexed (Stored-Reached s))
      (Stored-IsBound s) h
