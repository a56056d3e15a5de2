-- ===== src/Spans/Bound.antt =====
-- src/spans.rs: what a document id is bound to, and which spans it has.
use subnext.Prelude.{
  ◌≡◌, refl, sym, ap, ◌∙◌, ℕ, ◌<◌, Option, none, some, List, [], ◌∷◌, length, map, get_or,
  if◌then◌else◌, arith, inl, inr,
}
use subnext.Prelude.Bytes.{bytes_eq, bytes_eq_refl, bytes_eq_iff}
use subnext.Prelude.Dict.{Dict, get, insert, get-insert}
use subnext.Ids.{Clock, tick}
use subnext.Text.Split.{Split}
use subnext.Spans.{
  RawStore, ok, err, immutable, blank_document, chunk, id_for, push_document, add_document,
  document_of, siblings_of, spans_for,
}
use subnext.Spans.Chunk.{Unaddressed}
use subnext.Spans.Stored.{
  Stored, get_or-left, get_or-here, ends, positions, push_document-lem, map-kept,
  add_document-cases,
}
use subnext.Spans.Binding.{Cuts, Stored-Reached, Stored-IsBound}
use subnext.Spans.Indexed.{Reached, IsIndexed, Reached-IsIndexed, Below-get_or}

document_of-at :
    (st : RawStore) (id : List ℕ) (p : ℕ)
    → get st.doc_index id ≡ some p
    → document_of st id ≡ get_or st.documents p blank_document
unfolding document_of
document_of-at st id p h = ground arith

siblings_of-at :
    (st : RawStore) (id : List ℕ) (p : ℕ)
    → get st.doc_index id ≡ some p
    → siblings_of st id ≡ get_or st.doc_spans p []
unfolding siblings_of
siblings_of-at st id p h = ground arith

-- In every store that `new` and `add_document` lead to, the spans of a document that is there cut its
-- text, in order: none is empty, they do not overlap, they lie in the text, and what is in no span is
-- white space between paragraphs or a blank paragraph. A store rebuilt by `restore` is not covered: it has
-- the spans that it is given.
pub spans_for-Split :
    {st : RawStore} (id : List ℕ) (p : ℕ)
    → Stored st
    → get st.doc_index id ≡ some p
    → Split Unaddressed 0 (document_of st id).text (map ends (spans_for st id))
unfolding spans_for Cuts
spans_for-Split {st = st} id p s h =
    let b = Stored-IsBound s in
    let x = Reached-IsIndexed (Stored-Reached s) in
    rw (document_of-at st id p h, siblings_of-at st id p h) ((b.cuts p (x.in_range id p h)).1)

get-insert-same : (index : Dict ℕ) (id : List ℕ) (p : ℕ) → get (insert index id p) id ≡ some p
get-insert-same index id p = ground (arith, get-insert index id id p, bytes_eq_refl id)

get-insert-other :
    (index : Dict ℕ) (id other : List ℕ) (p q : ℕ)
    → get index id ≡ none
    → get index other ≡ some p
    → get (insert index id q) other ≡ some p
get-insert-other index id other p q fresh h =
    ground (arith, get-insert index id other q, bytes_eq_iff id other)

-- What the id is bound to behind an `add_document` that succeeds.
add_document-binds :
    {st : RawStore} (text : List ℕ) (id source : Option (List ℕ)) (clock : Clock)
    (r : RawStore × Clock × List ℕ)
    → IsIndexed st
    → add_document st text id source clock ≡ ok r
    → (p : ℕ) × (get r.0.doc_index (id_for id text) ≡ some p)
      × ((get_or r.0.documents p blank_document).text ≡ text)
      × (get_or r.0.doc_spans p [] ≡ r.2)
add_document-binds {st = st} text id source clock r b h =
    elim (add_document-cases st text id source clock r h) [
      | inl (fresh, e) ↦
          let doc_id = id_for id text in
          let (documents, index, spans, lists, ids) =
            push_document-lem st text doc_id source (tick clock).1 in
          rw e (
            length st.documents,
            ap (λ t. get t doc_id) index
                ∙ get-insert-same st.doc_index doc_id (length st.documents),
            rw (documents, get_or-here st.documents _ [] _ blank_document refl) refl,
            rw (lists, get_or-here st.doc_spans _ [] _ [] (sym b.same_length), ids) refl,
          )
      | inr (p, bound, same, e) ↦ rw e (p, bound, bytes_eq_iff _ _ same, refl)
    ]

push_document-keeps :
    (st : RawStore) (text doc_id : List ℕ) (source : Option (List ℕ)) (ts : ℕ) (other : List ℕ)
    (p : ℕ)
    → IsIndexed st
    → get st.doc_index doc_id ≡ none
    → get st.doc_index other ≡ some p
    → let r = push_document st text doc_id source ts in
      (document_of r.0 other ≡ document_of st other) × (spans_for r.0 other ≡ spans_for st other)
unfolding spans_for
push_document-keeps st text doc_id source ts other p b fresh h =
    let (documents, index, spans, lists, ids) = push_document-lem st text doc_id source ts in
    let r = push_document st text doc_id source ts in
    let lt : p < length st.documents = b.in_range other p h in
    let bound : get r.0.doc_index other ≡ some p =
      ap (λ t. get t other) index
      ∙ get-insert-other st.doc_index doc_id other p (length st.documents) fresh h in
    (
      rw (document_of-at r.0 other p bound, document_of-at st other p h, documents)
          (get_or-left st.documents _ p blank_document lt),
      rw
          (
            siblings_of-at r.0 other p bound,
            siblings_of-at st other p h,
            lists,
            spans,
            get_or-left st.doc_spans
                (positions (length st.spans) (chunk st.max_span_chars text) ∷ []) p []
                (omega (arith, b.same_length)),
          )
          (map-kept st.spans _ (get_or st.doc_spans p [])
            (Below-get_or (length st.spans) st.doc_spans p b.below)),
    )

-- In every store that `new`, `add_document` and `restore` lead to, what an id that is there is bound to
-- stays as it is in an `add_document` that succeeds: the document and its spans are the same.
pub spans_for-add_document :
    {st : RawStore} (other : List ℕ) (p : ℕ) (text : List ℕ) (id source : Option (List ℕ))
    (clock : Clock) (r : RawStore × Clock × List ℕ)
    → Reached st
    → get st.doc_index other ≡ some p
    → add_document st text id source clock ≡ ok r
    → (document_of r.0 other ≡ document_of st other) × (spans_for r.0 other ≡ spans_for st other)
unfolding spans_for
spans_for-add_document {st = st} other p text id source clock r s h e =
    elim (add_document-cases st text id source clock r e) [
      | inl (fresh, e') ↦ rw e' (
          push_document-keeps st text (id_for id text) source (tick clock).1 other p
            (Reached-IsIndexed s) fresh h)
      | inr (q, bound, same, e') ↦ rw e' (refl, refl)
    ]

add_document-bound :
    (st : RawStore) (text id : List ℕ) (source : Option (List ℕ)) (clock : Clock) (p : ℕ)
    → get st.doc_index id ≡ some p
    → add_document st text (some id) source clock ≡ (
        if bytes_eq (get_or st.documents p blank_document).text text
        then ok (st, clock, get_or st.doc_spans p [])
        else err (immutable id))
unfolding add_document
add_document-bound st text id source clock p h = ground arith

-- In every store that `new`, `add_document` and `restore` lead to, a document id is bound once. Behind
-- an `add_document` that succeeds, adding a text under the same id
-- changes nothing and returns the same spans where the text is the same, and is refused with the error
-- for the id where it is not.
pub add_document-again :
    {st : RawStore} (text other : List ℕ) (id source source' : Option (List ℕ))
    (clock clock' : Clock) (r : RawStore × Clock × List ℕ)
    → Reached st
    → add_document st text id source clock ≡ ok r
    → add_document r.0 other (some (id_for id text)) source' clock'
      ≡ (if bytes_eq text other then ok (r.0, clock', r.2) else err (immutable (id_for id text)))
add_document-again {st = st} text other id source source' clock clock' r s h =
    let (p, bound, same, ids) = add_document-binds text id source clock r (Reached-IsIndexed s) h in
    let doc_id = id_for id text in
    add_document-bound r.0 other doc_id source' clock' p bound
    ∙ ap
        (λ t.
          if bytes_eq t other
          then ok (r.0, clock', get_or r.0.doc_spans p [])
          else err (immutable doc_id))
        same
    ∙ ap (λ t. if bytes_eq text other then ok (r.0, clock', t) else err (immutable doc_id)) ids
