-- ===== src/Spans/Indexed.antt =====
-- src/spans.rs: what the index of a store leads to, in every store that `new`, `add_document` and `restore`
-- lead to. The documents and spans of a `restore` are arbitrary.
use Prim.Native.Nat.{gt}
use subnext.Prelude.{
  ◌≡◌, refl, subst, ◌∙◌, ℕ, zero, suc, ◌+◌, ◌≤◌, ◌<◌, Ordering, Option, none, some, List, [], ◌∷◌,
  ◌++◌, length, length-append, length-set, length-replicate, length-map, map, get_or, set,
  replicate, arith, All, inl, inr,
}
use subnext.Prelude.Bytes.{insert_by, sort_by}
use subnext.Prelude.Dict.{Dict, get, insert, get-insert}
use subnext.Ids.{Clock, tick}
use subnext.Spans.{
  Span, Document, RawStore, ok, new, chunk, id_for, push_document, add_document, restore,
  index_from, placed, push_each, by_place,
}
use subnext.Spans.Stored.{
  made, positions, Below, Below-more, Below-positions, length-made, push_document-lem,
  add_document-cases, in_range-insert,
}

-- The stores that `new`, `add_document` and `restore` lead to.
pub data Reached : RawStore → Type 0 where
  begins : (limit : ℕ) → Reached (new limit)
  adds :
      {st : RawStore} (text : List ℕ) (id source : Option (List ℕ)) (clock : Clock)
      (r : RawStore × Clock × List ℕ)
      → Reached st
      → add_document st text id source clock ≡ ok r
      → Reached r.0
  restores :
      {st : RawStore} (documents : List Document) (spans : List Span)
      → Reached st
      → Reached (restore st documents spans)

pub record IsIndexed (st : RawStore) : Type 0 where
  pub same_length : length st.doc_spans ≡ length st.documents
  pub in_range : (id : List ℕ) (p : ℕ) → get st.doc_index id ≡ some p → p < length st.documents
  pub below : All (Below (length st.spans)) st.doc_spans

pub Below-get_or :
    (n : ℕ) (lists : List (List ℕ)) (p : ℕ) → All (Below n) lists → Below n (get_or lists p [])
Below-get_or n [] p h = tt
Below-get_or n (x ∷ lists) zero h = h.0
Below-get_or n (x ∷ lists) (suc p) h = Below-get_or n lists p h.1

All-set :
    (n : ℕ) (lists : List (List ℕ)) (p : ℕ) (x : List ℕ)
    → Below n x
    → All (Below n) lists
    → All (Below n) (set lists p x)
All-set n [] p x b h = tt
All-set n (y ∷ lists) zero x b h = (b, h.1)
All-set n (y ∷ lists) (suc p) x b h = (h.0, All-set n lists p x b h.1)

All-replicate : (n k : ℕ) → All (Below n) (replicate k [])
All-replicate n zero = tt
All-replicate n (suc k) = (tt, All-replicate n k)

Below-snoc : (n : ℕ) (xs : List ℕ) (i : ℕ) → Below n xs → i < n → Below n (xs ++ (i ∷ []))
Below-snoc n [] i b h = (h, tt)
Below-snoc n (x ∷ xs) i b h = (b.0, Below-snoc n xs i b.1 h)

All-snoc :
    (m n : ℕ) (lists : List (List ℕ)) (x : List ℕ)
    → All (Below m) lists
    → m ≤ n
    → Below n x
    → All (Below n) (lists ++ (x ∷ []))
All-snoc m n [] x a h b = (b, tt)
All-snoc m n (y ∷ lists) x a h b = (Below-more m n y a.0 h, All-snoc m n lists x a.1 h b)

-- The positions of the spans that a `restore` hands out.
abbrev Lower : ℕ → List (ℕ × ℕ × ℕ) → Type 0
Lower n places = All (λ (x : ℕ × ℕ × ℕ). x.2 < n) places

Lower-placed :
    (n i : ℕ) (index : Dict ℕ) (spans : List Span)
    → i + length spans ≡ n
    → Lower n (placed index i spans)
unfolding placed
Lower-placed n i index [] h = tt
Lower-placed n i index (s ∷ spans) h =
    let rest = Lower-placed n (suc i) index spans (omega arith) in
    let others = placed index (suc i) spans in
    elim (get index s.doc_id)
      as (λ x. Lower n (elim x [ none ↦ others | some d ↦ (d, s.seq, i) ∷ others ])) [
        | none ↦ rest
        | some d ↦ (omega arith, rest)
      ]

Lower-insert_by :
    (cmp : ℕ × ℕ × ℕ → ℕ × ℕ × ℕ → Ordering) (n : ℕ) (x : ℕ × ℕ × ℕ) (xs : List (ℕ × ℕ × ℕ))
    → x.2 < n
    → Lower n xs
    → Lower n (insert_by cmp x xs)
unfolding insert_by
Lower-insert_by cmp n x [] h a = (h, tt)
Lower-insert_by cmp n x (y ∷ xs) h a =
    let rest = Lower-insert_by cmp n x xs h a.1 in
    elim (cmp x y) as (λ o. Lower n (elim o [ gt ↦ y ∷ insert_by cmp x xs | _ ↦ x ∷ y ∷ xs ])) [
      | gt ↦ (a.0, rest)
      | _ ↦ (h, a)
    ]

Lower-sort_by :
    (cmp : ℕ × ℕ × ℕ → ℕ × ℕ × ℕ → Ordering) (n : ℕ) (xs : List (ℕ × ℕ × ℕ))
    → Lower n xs
    → Lower n (sort_by cmp xs)
unfolding sort_by
Lower-sort_by cmp n [] a = tt
Lower-sort_by cmp n (x ∷ xs) a =
    Lower-insert_by cmp n x (sort_by cmp xs) a.0 (Lower-sort_by cmp n xs a.1)

All-push_each :
    (n : ℕ) (places : List (ℕ × ℕ × ℕ)) (lists : List (List ℕ))
    → Lower n places
    → All (Below n) lists
    → All (Below n) (push_each places lists)
unfolding push_each
All-push_each n [] lists l a = a
All-push_each n ((d, seq, i) ∷ places) lists l a =
    All-push_each n places _ l.1
      (All-set n lists d _ (Below-snoc n (get_or lists d []) i (Below-get_or n lists d a) l.0) a)

length-push_each :
    (places : List (ℕ × ℕ × ℕ)) (lists : List (List ℕ))
    → length (push_each places lists) ≡ length lists
unfolding push_each
length-push_each [] lists = refl
length-push_each ((d, seq, i) ∷ places) lists =
    length-push_each places _ ∙ length-set lists d (get_or lists d [] ++ (i ∷ []))

-- The positions in an index of ids are those of the ids.
get-index_from :
    (m n : ℕ) (ids : List (List ℕ)) (index : Dict ℕ) (id : List ℕ) (p : ℕ)
    → n + length ids ≡ m
    → ((j : List ℕ) (q : ℕ) → get index j ≡ some q → q < m)
    → get (index_from n ids index) id ≡ some p
    → p < m
unfolding index_from
get-index_from m n [] index id p h old e = old id p e
get-index_from m n (x ∷ ids) index id p h old e =
    get-index_from m (suc n) ids (insert index x n) id p (omega arith)
      (λ j q k. ground (arith, get-insert index x j n, old j q)) e

new-IsIndexed : (limit : ℕ) → IsIndexed (new limit)
unfolding get
new-IsIndexed limit = record { same_length = refl; in_range = λ id p h. cc; below = tt }

restore-IsIndexed :
    (st : RawStore) (documents : List Document) (spans : List Span)
    → IsIndexed (restore st documents spans)
unfolding restore get
restore-IsIndexed st documents spans =
    let ids = map (λ (d : Document). d.id) documents in
    let places = placed (index_from 0 ids []) 0 spans in
    record {
      same_length =
          length-push_each (sort_by by_place places) (replicate (length documents) [])
          ∙ length-replicate (length documents) [];
      in_range = λ id p h.
          get-index_from (length documents) 0 ids [] id p
            (omega (arith, length-map (λ (d : Document). d.id) documents)) (λ j q k. cc) h;
      below =
          All-push_each (length spans) (sort_by by_place places) (replicate (length documents) [])
            (Lower-sort_by by_place (length spans) places
              (Lower-placed (length spans) 0 (index_from 0 ids []) spans (omega arith)))
            (All-replicate (length spans) (length documents));
    }

push_document-IsIndexed :
    (st : RawStore) (text doc_id : List ℕ) (source : Option (List ℕ)) (ts : ℕ)
    → IsIndexed st
    → IsIndexed (push_document st text doc_id source ts).0
push_document-IsIndexed st text doc_id source ts b =
    let (documents, index, spans, lists, ids) = push_document-lem st text doc_id source ts in
    let ranges = chunk st.max_span_chars text in
    let document : Document = record { id = doc_id; text = text; ts = ts; source = source } in
    let idxs = positions (length st.spans) ranges in
    let more = made doc_id ts 0 ranges in
    let sizes = length-append st.spans more in
    record {
      same_length =
          rw (documents, lists)
            (omega (
              arith,
              b.same_length,
              length-append st.doc_spans (idxs ∷ []),
              length-append st.documents (document ∷ []),
            ));
      in_range = λ id p h. rw documents (
          in_range-insert st.documents document st.doc_index doc_id id p b.in_range
            (subst (λ t. get t id ≡ some p) index h));
      below =
          rw (spans, lists)
            (All-snoc (length st.spans) (length (st.spans ++ more)) st.doc_spans idxs b.below
              (omega (arith, sizes))
              (Below-positions _ (length st.spans) ranges
                (omega (arith, sizes, length-made doc_id ts 0 ranges))));
    }

pub Reached-IsIndexed : {st : RawStore} → Reached st → IsIndexed st
Reached-IsIndexed (begins limit) = new-IsIndexed limit
Reached-IsIndexed (restores {st = st} documents spans s) = restore-IsIndexed st documents spans
Reached-IsIndexed (adds {st = st} text id source clock r s h) =
    elim (add_document-cases st text id source clock r h) [
      | inl (fresh, e) ↦ rw e (
          push_document-IsIndexed st text (id_for id text) source (tick clock).1
            (Reached-IsIndexed s))
      | inr (p, bound, same, e) ↦ rw e (Reached-IsIndexed s)
    ]
