-- ===== src/Spans/Examples.antt =====
-- src/spans.rs and src/text.rs: a document of two paragraphs, of which the second is long, and runs of
-- the operations on it.
use subnext.Prelude.{◌≡◌, refl, ℕ, none, some, List, [], ◌∷◌, map, if◌then◌else◌}
use subnext.Prelude.Bytes.{codes, bytes_eq, cmp_bytes}
use subnext.Prelude.Dict.{get, insert}
use subnext.Ids.{Clock, make_id}
use subnext.Text.{paragraph_ranges, sentence_ranges}
use subnext.Text.Split.{Split}
use subnext.Text.Runs.{Spaces}
use subnext.Text.Ranges.{ranges-Split}
use subnext.Spans.{
  RawStore, ok, err, immutable, new, chunk, add_document, document_of, spans_for, text_of_many,
  restore, Span, span_by_id,
}
use subnext.Spans.Slices.{trim, decimal, is_blank}
use subnext.Spans.Chunk.{Unaddressed}
use subnext.Spans.Stored.{Stored, begins, adds, ends}
use subnext.Spans.Indexed.{Reached}
use subnext.Spans.Bound.{spans_for-Split, spans_for-add_document, add_document-again}

-- "Ab c.\n \nDe. Fg! H"
abbrev two_paragraphs : List ℕ
two_paragraphs =
    65 ∷ 98 ∷ 32 ∷ 99 ∷ 46 ∷ 10 ∷ 32 ∷ 10 ∷ 68 ∷ 101 ∷ 46 ∷ 32 ∷ 70 ∷ 103 ∷ 33 ∷ 32 ∷ 72 ∷ []

paragraphs : paragraph_ranges two_paragraphs ≡ (0, 5) ∷ (8, 17) ∷ []
unfolding paragraph_ranges
paragraphs = refl

sentences : sentence_ranges two_paragraphs ≡ (0, 5) ∷ (8, 11) ∷ (12, 15) ∷ (16, 17) ∷ []
unfolding sentence_ranges
sentences = refl

chunks : chunk 6 two_paragraphs ≡ (0, 5) ∷ (8, 12) ∷ (12, 17) ∷ []
unfolding chunk paragraph_ranges is_blank sentence_ranges
chunks = refl

trimmed : trim (0xe3 ∷ 0x80 ∷ 0x80 ∷ 65 ∷ 0xc2 ∷ 0xa0 ∷ 10 ∷ []) ≡ 65 ∷ []
unfolding trim
trimmed = refl

printed : decimal 1205 ≡ codes "1205"
unfolding decimal
printed = refl

ranges-Split_example :
    Split Spaces 0 two_paragraphs (paragraph_ranges two_paragraphs)
    × Split Spaces 0 two_paragraphs (sentence_ranges two_paragraphs)
ranges-Split_example = ranges-Split two_paragraphs

abbrev clock : Clock
clock = record { now = 0 }

abbrev doc : List ℕ
doc = codes "doc"

unfoldable filled : RawStore × Clock × List ℕ
unfolding add_document
filled = elim (add_document (new 6) two_paragraphs (some doc) none clock) [
  | ok r ↦ r
  | err e ↦ (new 6, clock, [])
]

first_add : add_document (new 6) two_paragraphs (some doc) none clock ≡ ok filled
unfolding filled get
first_add = refl

filled-Stored : Stored filled.0
filled-Stored = adds two_paragraphs (some doc) none clock filled (begins 6) first_add

doc_bound : get filled.0.doc_index doc ≡ some 0
unfolding filled get paragraph_ranges is_blank sentence_ranges insert cmp_bytes
doc_bound = refl

spans_for-Split_example :
    Split Unaddressed 0 (document_of filled.0 doc).text (map ends (spans_for filled.0 doc))
spans_for-Split_example = spans_for-Split doc 0 filled-Stored doc_bound

found_spans : map ends (spans_for filled.0 doc) ≡ (0, 5) ∷ (8, 12) ∷ (12, 17) ∷ []
unfolding filled spans_for get paragraph_ranges is_blank sentence_ranges insert cmp_bytes
found_spans = refl

-- The store of a runtime that is loaded again.
abbrev reloaded : RawStore
reloaded = restore (new 6) filled.0.documents filled.0.spans

reloaded-Reached : Reached reloaded
reloaded-Reached = Reached.restores filled.0.documents filled.0.spans (Reached.begins 6)

reloaded_bound : get reloaded.doc_index doc ≡ some 0
unfolding restore filled get paragraph_ranges is_blank sentence_ranges insert cmp_bytes
reloaded_bound = refl

abbrev other_doc : List ℕ
other_doc = codes "other"

unfoldable both : RawStore × Clock × List ℕ
unfolding add_document
both = elim (add_document reloaded (codes "Hi.") (some other_doc) none filled.1) [
  | ok r ↦ r
  | err e ↦ filled
]

second_add : add_document reloaded (codes "Hi.") (some other_doc) none filled.1 ≡ ok both
unfolding both restore filled get paragraph_ranges is_blank sentence_ranges insert cmp_bytes
second_add = refl

spans_for-add_document_example :
    (document_of both.0 doc ≡ document_of reloaded doc)
    × (spans_for both.0 doc ≡ spans_for reloaded doc)
spans_for-add_document_example =
    spans_for-add_document doc 0 (codes "Hi.") (some other_doc) none filled.1 both reloaded-Reached
      reloaded_bound second_add

add_document-again_example : add_document both.0 two_paragraphs (some other_doc) none clock ≡ (
    if bytes_eq (codes "Hi.") two_paragraphs
    then ok (both.0, clock, both.2)
    else err (immutable other_doc))
add_document-again_example =
    add_document-again (codes "Hi.") two_paragraphs (some other_doc) none none filled.1 clock both
      reloaded-Reached second_add

-- Restoring what a store holds gives its lists of spans again.
restored : (restore (new 6) both.0.documents both.0.spans).doc_spans ≡ both.0.doc_spans
unfolding restore both filled get paragraph_ranges is_blank sentence_ranges insert cmp_bytes
restored = refl

joined_texts :
    text_of_many both.0 (map (λ (s : Span). s.id) (spans_for both.0 other_doc)) ≡ codes "Hi."
unfolding text_of_many both restore filled spans_for get paragraph_ranges is_blank sentence_ranges
    insert cmp_bytes make_id decimal trim span_by_id document_of
joined_texts = refl
