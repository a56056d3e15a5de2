-- ===== src/Spans.antt =====
-- src/spans.rs: the raw store, where a document is bound to its id once and is cut into spans. A text is
-- its UTF-8 bytes, and a slice of it is given by two byte positions.
pub mod Slices
mod Chunk
mod Stored
pub mod Binding
pub mod Indexed
mod Bound
mod Examples
use subnext.Prelude.{
  ℕ, Bool, suc, false, compare, Ordering, set, replicate, ◌+◌, ◌-◌, true, false, Option, none, some,
  List, [], ◌∷◌, ◌++◌, length, map, min, take, drop, get_or, ltb, leb, ◌&&◌, not, if◌then◌else◌,
}
use subnext.Prelude.Bytes.{bytes_eq, codes, then_cmp, sort_by}
use subnext.Prelude.Dict.{Dict, get, insert}
use subnext.Ids.{Clock, make_id, tick}
use subnext.Text.{paragraph_ranges, sentence_ranges}
use subnext.Spans.Slices.{slice, char_count, trim, is_blank, is_empty, decimal}

pub record Span : Type 0 where
  pub id : List ℕ
  pub doc_id : List ℕ
  pub start : ℕ
  pub end : ℕ
  pub seq : ℕ
  pub ts : ℕ

pub record Document : Type 0 where
  pub id : List ℕ
  pub text : List ℕ
  pub ts : ℕ
  pub source : Option (List ℕ)

pub record RawStore : Type 0 where
  pub max_span_chars : ℕ
  pub documents : List Document
  pub doc_index : Dict ℕ
  pub spans : List Span
  pub span_index : Dict ℕ
  pub doc_spans : List (List ℕ)

pub data StoreError : Type 0 where
  immutable : List ℕ → StoreError

pub data Result {ℓ} (A : Type ℓ) : Type ℓ where
  ok : A → Result A
  err : StoreError → Result A

abbrev pub new : ℕ → RawStore
new max_span_chars = record {
  max_span_chars = max_span_chars;
  documents = [];
  doc_index = [];
  spans = [];
  span_index = [];
  doc_spans = [];
}

-- What a read out of range gives.
abbrev pub blank_span : Span
blank_span = record { id = []; doc_id = []; start = 0; end = 0; seq = 0; ts = 0 }

abbrev pub blank_document : Document
blank_document = record { id = []; text = []; ts = 0; source = none }

-- The sentences of a long block are gathered into spans. `base` is where the block starts.
pub gather : ℕ → ℕ → List ℕ → List (ℕ × ℕ) → ℕ → ℕ → List (ℕ × ℕ)
unfolding char_count slice
gather limit base block [] buf_start buf_len =
    if ltb buf_start (length block) then (base + buf_start, base + length block) ∷ [] else []
gather limit base block ((s, e) ∷ sentences) buf_start buf_len =
    let piece_len = char_count (slice block s e) in
    let cut = gather limit base block sentences s (piece_len + 1) in
    let joined = gather limit base block sentences buf_start (buf_len + (piece_len + 1)) in
    if ltb limit (buf_len + piece_len) && ltb buf_start s
    then (base + buf_start, base + s) ∷ cut
    else joined

-- One paragraph, by its two positions in the text.
pub block_spans : ℕ → List ℕ → ℕ × ℕ → List (ℕ × ℕ)
unfolding gather
block_spans limit text (start, end) =
    let block = slice text start end in
    if leb (char_count block) limit
    then if is_blank block then [] else (start, end) ∷ []
    else gather limit start block (sentence_ranges block) 0 0

pub chunk_blocks : ℕ → List ℕ → List (ℕ × ℕ) → List (ℕ × ℕ)
unfolding block_spans
chunk_blocks limit text [] = []
chunk_blocks limit text (paragraph ∷ paragraphs) =
    block_spans limit text paragraph ++ chunk_blocks limit text paragraphs

pub chunk : ℕ → List ℕ → List (ℕ × ℕ)
unfolding chunk_blocks
chunk limit text = chunk_blocks limit text (paragraph_ranges text)

abbrev pub span_id : List ℕ → ℕ × ℕ → List ℕ
span_id doc_id (start, end) = make_id (codes "s") (doc_id ∷ decimal start ∷ decimal end ∷ [])

abbrev pub make_span : List ℕ → ℕ → ℕ → ℕ × ℕ → Span
make_span doc_id ts seq r = record {
  id = span_id doc_id r;
  doc_id = doc_id;
  start = r.0;
  end = r.1;
  seq = seq;
  ts = ts;
}

-- The loop of `add_document` over the ranges, from `seq`: the store, and the positions of the spans.
pub push_spans : List ℕ → ℕ → ℕ → List (ℕ × ℕ) → RawStore → RawStore × List ℕ
push_spans doc_id ts seq [] st = (st, [])
push_spans doc_id ts seq (r ∷ ranges) st =
    let idx = length st.spans in
    let st' = record st {
      spans = st.spans ++ (make_span doc_id ts seq r ∷ []);
      span_index = insert st.span_index (span_id doc_id r) idx;
    } in
    let rest = push_spans doc_id ts (suc seq) ranges st' in (rest.0, idx ∷ rest.1)

-- `doc_id.unwrap_or_else(…)`
abbrev pub id_for : Option (List ℕ) → List ℕ → List ℕ
id_for none text = make_id (codes "doc") (text ∷ [])
id_for (some id) text = id

-- A document whose id is new, with the time `ts`.
pub push_document : RawStore → List ℕ → List ℕ → Option (List ℕ) → ℕ → RawStore × List ℕ
unfolding push_spans chunk
push_document st text doc_id source ts =
    let st' = record st {
      documents =
          st.documents ++ (record { id = doc_id; text = text; ts = ts; source = source } ∷ []);
      doc_index = insert st.doc_index doc_id (length st.documents);
    } in
    let r = push_spans doc_id ts 0 (chunk st.max_span_chars text) st' in
    (record r.0 { doc_spans = r.0.doc_spans ++ (r.1 ∷ []) }, r.1)

-- `add_document`: the store, the clock, and the positions of the spans.
pub add_document :
    RawStore
    → List ℕ
    → Option (List ℕ)
    → Option (List ℕ)
    → Clock
    → Result (RawStore × Clock × List ℕ)
unfolding push_document
add_document st text id source clock =
    let doc_id = id_for id text in
    let stamped = tick clock in
    let pushed = push_document st text doc_id source stamped.1 in
    elim (get st.doc_index doc_id) [
      | none ↦ ok (pushed.0, stamped.0, pushed.1)
      | some existing ↦
          if bytes_eq (get_or st.documents existing blank_document).text text
          then ok (st, clock, get_or st.doc_spans existing [])
          else err (immutable doc_id)
    ]

abbrev pub span_at : List Span → ℕ → Span
span_at spans idx = get_or spans idx blank_span

pub span_by_id : RawStore → List ℕ → Option Span
span_by_id st id = elim (get st.span_index id) [
  | none ↦ none
  | some idx ↦ some (span_at st.spans idx)
]

-- The document that `doc_index[&span.doc_id]` leads to.
pub document_of : RawStore → List ℕ → Document
document_of st doc_id = elim (get st.doc_index doc_id) [
  | none ↦ blank_document
  | some p ↦ get_or st.documents p blank_document
]

pub siblings_of : RawStore → List ℕ → List ℕ
siblings_of st doc_id = elim (get st.doc_index doc_id) [
  | none ↦ []
  | some p ↦ get_or st.doc_spans p []
]

pub text_of : RawStore → List ℕ → List ℕ
unfolding span_by_id document_of slice trim
text_of st id = elim (span_by_id st id) [
  | none ↦ []
  | some span ↦ trim (slice (document_of st span.doc_id).text span.start span.end)
]

unfoldable neighbours : RawStore → List ℕ → ℕ → List Span
unfolding span_by_id siblings_of slice
neighbours st id radius = elim (span_by_id st id) [
  | none ↦ []
  | some span ↦
      let siblings = siblings_of st span.doc_id in
      map (span_at st.spans)
        (slice siblings (span.seq - radius) (min (span.seq + radius + 1) (length siblings)))
]

pub spans_for : RawStore → List ℕ → List Span
unfolding siblings_of
spans_for st doc_id = map (span_at st.spans) (siblings_of st doc_id)

unfoldable pub has_span : RawStore → List ℕ → Bool
has_span st id = elim (get st.span_index id) [ none ↦ false | some idx ↦ true ]

-- The loop of `text_of_many`; a text that is empty is left out.
texts_of : RawStore → List (List ℕ) → List (List ℕ)
unfolding text_of
texts_of st [] = []
texts_of st (id ∷ ids) =
    let rest = texts_of st ids in
    let text = text_of st id in if is_empty text then rest else text ∷ rest

-- `join("\n")`
unfoldable join_lines : List (List ℕ) → List ℕ
join_lines [] = []
join_lines (line ∷ []) = line
join_lines (line ∷ next ∷ lines) = line ++ (10 ∷ join_lines (next ∷ lines))

pub text_of_many : RawStore → List (List ℕ) → List ℕ
unfolding texts_of join_lines
text_of_many st ids = join_lines (texts_of st ids)

-- An index of ids by position, from `n`; a later id takes the place of an equal one.
unfoldable index_from : ℕ → List (List ℕ) → Dict ℕ → Dict ℕ
index_from n [] index = index
index_from n (id ∷ ids) index = index_from (suc n) ids (insert index id n)

-- The spans whose document is there, each with the position of its document, its `seq` and its own
-- position, from `i`.
unfoldable placed : Dict ℕ → ℕ → List Span → List (ℕ × ℕ × ℕ)
placed index i [] = []
placed index i (span ∷ spans) =
    let rest = placed index (suc i) spans in
    elim (get index span.doc_id) [ none ↦ rest | some d ↦ (d, span.seq, i) ∷ rest ]

-- `sort_by_key(|(d, seq, _)| (*d, *seq))`
abbrev by_place : ℕ × ℕ × ℕ → ℕ × ℕ × ℕ → Ordering
by_place (d, seq, i) (d', seq', i') = then_cmp (compare d d') (compare seq seq')

unfoldable push_each : List (ℕ × ℕ × ℕ) → List (List ℕ) → List (List ℕ)
push_each [] lists = lists
push_each ((d, seq, i) ∷ ordered) lists =
    push_each ordered (set lists d (get_or lists d [] ++ (i ∷ [])))

pub restore : RawStore → List Document → List Span → RawStore
unfolding index_from placed push_each sort_by
restore st documents spans =
    let doc_index = index_from 0 (map (λ (d : Document). d.id) documents) [] in
    record st {
      documents = documents;
      doc_index = doc_index;
      doc_spans =
          push_each (sort_by by_place (placed doc_index 0 spans)) (replicate (length documents) []);
      spans = spans;
      span_index = index_from 0 (map (λ (s : Span). s.id) spans) [];
    }
