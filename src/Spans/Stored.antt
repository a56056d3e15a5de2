-- ===== src/Spans/Stored.antt =====
-- src/spans.rs: what every store keeps that `new` and `add_document` lead to.
use subnext.Prelude.{
  ◌≡◌, refl, sym, ap, ◌∙◌, ◌⊎◌, ℕ, zero, suc, ◌+◌, ◌≤◌, ◌<◌, true, Option, none, some, List, [],
  ◌∷◌, ◌++◌, length, length-append, map, get_or, append_assoc, append-nil, arith, All, Option-cases,
  inl, inr,
}
use subnext.Prelude.Bytes.{bytes_eq}
use subnext.Prelude.Dict.{Dict, get, insert, get-insert}
use subnext.Ids.{Clock, tick}
use subnext.Spans.{
  Span, Document, RawStore, ok, new, blank_span, blank_document, chunk, make_span, span_id,
  push_spans, id_for, push_document, add_document, span_at,
}

-- The stores that `new` and `add_document` lead to.
pub data Stored : RawStore → Type 0 where
  begins : (limit : ℕ) → Stored (new limit)
  adds :
      {st : RawStore} (text : List ℕ) (id source : Option (List ℕ)) (clock : Clock)
      (r : RawStore × Clock × List ℕ)
      → Stored st
      → add_document st text id source clock ≡ ok r
      → Stored r.0

pub get_or-left {ℓ} :
    {A : Type ℓ} (xs ys : List A) (i : ℕ) (d : A)
    → i < length xs
    → get_or (xs ++ ys) i d ≡ get_or xs i d
get_or-left [] ys i d h = absurd (omega arith)
get_or-left (x ∷ xs) ys zero d h = refl
get_or-left (x ∷ xs) ys (suc i) d h = get_or-left xs ys i d (omega arith)

pub get_or-here {ℓ} :
    {A : Type ℓ} (xs : List A) (y : A) (ys : List A) (i : ℕ) (d : A)
    → i ≡ length xs
    → get_or (xs ++ (y ∷ ys)) i d ≡ y
get_or-here [] y ys zero d h = refl
get_or-here [] y ys (suc i) d h = absurd (omega arith)
get_or-here (x ∷ xs) y ys zero d h = absurd (omega arith)
get_or-here (x ∷ xs) y ys (suc i) d h = get_or-here xs y ys i d (omega arith)

abbrev pub ends : Span → ℕ × ℕ
ends s = (s.start, s.end)

-- The spans of the ranges, and their positions in the store.
pub made : List ℕ → ℕ → ℕ → List (ℕ × ℕ) → List Span
made doc_id ts seq [] = []
made doc_id ts seq (r ∷ ranges) = make_span doc_id ts seq r ∷ made doc_id ts (suc seq) ranges

pub positions : ℕ → List (ℕ × ℕ) → List ℕ
positions n [] = []
positions n (r ∷ ranges) = n ∷ positions (suc n) ranges

abbrev pub Below : ℕ → List ℕ → Type 0
Below n idxs = All (λ (i : ℕ). i < n) idxs

pub Below-more : (m n : ℕ) (idxs : List ℕ) → Below m idxs → m ≤ n → Below n idxs
Below-more m n [] h e = tt
Below-more m n (i ∷ idxs) h e = (omega arith, Below-more m n idxs h.1 e)

pub Below-positions :
    (k n : ℕ) (ranges : List (ℕ × ℕ)) → n + length ranges ≡ k → Below k (positions n ranges)
unfolding positions
Below-positions k n [] h = tt
Below-positions k n (r ∷ ranges) h = (omega arith, Below-positions k (suc n) ranges (omega arith))

pub length-made :
    (doc_id : List ℕ) (ts seq : ℕ) (ranges : List (ℕ × ℕ))
    → length (made doc_id ts seq ranges) ≡ length ranges
unfolding made
length-made doc_id ts seq [] = refl
length-made doc_id ts seq (r ∷ ranges) = ap suc (length-made doc_id ts (suc seq) ranges)

pub map-ends :
    (doc_id : List ℕ) (ts seq : ℕ) (ranges : List (ℕ × ℕ))
    → map ends (made doc_id ts seq ranges) ≡ ranges
unfolding made
map-ends doc_id ts seq [] = refl
map-ends doc_id ts seq (r ∷ ranges) = ap (λ t. r ∷ t) (map-ends doc_id ts (suc seq) ranges)

pub map-kept :
    (spans more : List Span) (idxs : List ℕ)
    → Below (length spans) idxs
    → map (span_at (spans ++ more)) idxs ≡ map (span_at spans) idxs
map-kept spans more [] h = refl
map-kept spans more (i ∷ idxs) h =
    rw (get_or-left spans more i blank_span h.0, map-kept spans more idxs h.1) refl

pub map-made :
    (spans : List Span) (doc_id : List ℕ) (ts seq n : ℕ) (ranges : List (ℕ × ℕ))
    → n ≡ length spans
    → map (span_at (spans ++ made doc_id ts seq ranges)) (positions n ranges)
      ≡ made doc_id ts seq ranges
unfolding made positions
map-made spans doc_id ts seq n [] h = refl
map-made spans doc_id ts seq n (r ∷ ranges) h =
    let x = make_span doc_id ts seq r in
    let more = made doc_id ts (suc seq) ranges in
    rw (get_or-here spans x more n blank_span h) (
      ap (λ t. x ∷ t)
        (ap (λ t. map (span_at t) (positions (suc n) ranges))
            (sym (append_assoc spans (x ∷ []) more))
          ∙ map-made (spans ++ (x ∷ [])) doc_id ts (suc seq) (suc n) ranges
              (omega (arith, length-append spans (x ∷ [])))))

push_spans-lem :
    (doc_id : List ℕ) (ts seq : ℕ) (ranges : List (ℕ × ℕ)) (st : RawStore)
    → let r = push_spans doc_id ts seq ranges st in
      (r.1 ≡ positions (length st.spans) ranges)
      × (r.0.spans ≡ st.spans ++ made doc_id ts seq ranges)
      × (r.0.documents ≡ st.documents)
      × (r.0.doc_index ≡ st.doc_index)
      × (r.0.doc_spans ≡ st.doc_spans)
unfolding push_spans made positions
push_spans-lem doc_id ts seq [] st = (refl, sym (append-nil st.spans), refl, refl, refl)
push_spans-lem doc_id ts seq (r ∷ ranges) st =
    let st' = record st {
      spans = st.spans ++ (make_span doc_id ts seq r ∷ []);
      span_index = insert st.span_index (span_id doc_id r) (length st.spans);
    } in
    let (ids, spans, documents, index, lists) = push_spans-lem doc_id ts (suc seq) ranges st' in
    (
      ap (λ t. length st.spans ∷ t)
          (ids
            ∙ ap (λ k. positions k ranges)
                (omega (arith, length-append st.spans (make_span doc_id ts seq r ∷ [])))),
      spans
          ∙ append_assoc st.spans (make_span doc_id ts seq r ∷ [])
              (made doc_id ts (suc seq) ranges),
      documents,
      index,
      lists,
    )

pub add_document-cases :
    (st : RawStore) (text : List ℕ) (id source : Option (List ℕ)) (clock : Clock)
    (r : RawStore × Clock × List ℕ)
    → add_document st text id source clock ≡ ok r
    → let doc_id = id_for id text in
      ((get st.doc_index doc_id ≡ none)
        × (r ≡ (
          (push_document st text doc_id source (tick clock).1).0,
          (tick clock).0,
          (push_document st text doc_id source (tick clock).1).1,
        )))
      ⊎ ((p : ℕ) × (get st.doc_index doc_id ≡ some p)
          × (bytes_eq (get_or st.documents p blank_document).text text ≡ true)
          × (r ≡ (st, clock, get_or st.doc_spans p [])))
unfolding add_document
add_document-cases st text id source clock r h =
    elim (Option-cases (get st.doc_index (id_for id text))) [
      | inl e ↦ inl (e, ground arith)
      | inr (p, e) ↦ inr (p, e, ground arith, ground arith)
    ]

pub push_document-lem :
    (st : RawStore) (text doc_id : List ℕ) (source : Option (List ℕ)) (ts : ℕ)
    → let r = push_document st text doc_id source ts in
      let ranges = chunk st.max_span_chars text in
      let document : Document = record { id = doc_id; text = text; ts = ts; source = source } in
      (r.0.documents ≡ st.documents ++ (document ∷ []))
      × (r.0.doc_index ≡ insert st.doc_index doc_id (length st.documents))
      × (r.0.spans ≡ st.spans ++ made doc_id ts 0 ranges)
      × (r.0.doc_spans ≡ st.doc_spans ++ (positions (length st.spans) ranges ∷ []))
      × (r.1 ≡ positions (length st.spans) ranges)
unfolding push_document
push_document-lem st text doc_id source ts =
    let st' = record st {
      documents =
          st.documents ++ (record { id = doc_id; text = text; ts = ts; source = source } ∷ []);
      doc_index = insert st.doc_index doc_id (length st.documents);
    } in
    let (ids, spans, documents, index, lists) =
      push_spans-lem doc_id ts 0 (chunk st.max_span_chars text) st' in
    (documents, index, spans, rw (lists, ids) refl, ids)

pub in_range-insert :
    (documents : List Document) (document : Document) (index : Dict ℕ) (doc_id id : List ℕ) (p : ℕ)
    → ((j : List ℕ) (q : ℕ) → get index j ≡ some q → q < length documents)
    → get (insert index doc_id (length documents)) id ≡ some p
    → p < length (documents ++ (document ∷ []))
in_range-insert documents document index doc_id id p old h = ground (
  arith,
  get-insert index doc_id id (length documents),
  length-append documents (document ∷ []),
  old id p,
)
