-- ===== src/Qwen/Support.antt =====
-- qwen_answering.py: `validate_qwen_decision` on a `QwenDecision`.
use evidencedesk.Prelude.{
  ℕ, Text, Bool, true, false, Option, none, some, List, [], ◌∷◌, ◌&&◌, ◌||◌, not,
}
use evidencedesk.Python.Strings.{is_blank}
use evidencedesk.Python.Lines.{split_lines}
use evidencedesk.Python.Search.{within, joined}
use evidencedesk.Processing.Chunking.{words}
use evidencedesk.Evidence.{EvidenceChunk}
use evidencedesk.Trust.{
  TextHost, is_untrusted_document_instruction, untrusted_document_fragment_indexes,
}
use evidencedesk.Answering.{FieldValue, RankedChunk}
use evidencedesk.Answering.Validate.{
  has_text, none_left, every, any, parts_of, matching, in_blocked,
}
use evidencedesk.Qwen.{Outcome, value, QwenDecision}
use evidencedesk.Qwen.Decision.{refuse_if}

-- `_normalise`; the words of `str.split` are the longest runs without whitespace.
unfoldable pub normalise : TextHost → Text → Text
unfolding joined words
normalise host s = joined 32 (words (host.casefold s))

-- The value of one field, whose blank parts do not matter
unfoldable pub value_is_supported : TextHost → Text → Text × FieldValue → Bool
unfolding every is_blank within normalise
value_is_supported host excerpt (name, v) =
    every (λ s. is_blank s || within (normalise host s) (normalise host excerpt)) (parts_of v)

-- `_values_are_supported`
unfoldable pub values_are_supported : TextHost → List (Text × FieldValue) → Text → Bool
unfolding every value_is_supported
values_are_supported host fields excerpt = every (value_is_supported host excerpt) fields

unfoldable pub chunks_of : List RankedChunk → List EvidenceChunk
chunks_of [] = []
chunks_of (item ∷ rest) = item.chunk ∷ chunks_of rest

-- The excerpt is in a line of the chunk that is untrusted.
unfoldable pub in_untrusted_line : TextHost → Text → EvidenceChunk → Bool
unfolding in_blocked untrusted_document_fragment_indexes split_lines
in_untrusted_line host excerpt chunk =
    in_blocked excerpt (untrusted_document_fragment_indexes host (split_lines chunk.text)) 0
      (split_lines chunk.text)

unfoldable pub answer_in_excerpt : TextHost → Option Text → Text → Bool
unfolding within normalise
answer_in_excerpt host none excerpt = true
answer_in_excerpt host (some answer) excerpt =
    within (normalise host answer) (normalise host excerpt)

-- A decision that names a document, a page and an excerpt, on the chunks that match
unfoldable pub support_is_found : TextHost → QwenDecision → Text → List EvidenceChunk → Bool
unfolding is_untrusted_document_instruction any within in_untrusted_line answer_in_excerpt
    values_are_supported
support_is_found host d excerpt found =
    not (is_untrusted_document_instruction host excerpt)
    && not (none_left found)
    && any (λ (c : EvidenceChunk). within excerpt c.text) found
    && not (any (in_untrusted_line host excerpt) found)
    && (not d.answerable || answer_in_excerpt host d.answer excerpt)
    && values_are_supported host d.extracted_fields excerpt

unfoldable pub support_stands :
    TextHost
    → (ℕ → Text)
    → QwenDecision
    → List EvidenceChunk
    → Option Text
    → Option ℕ
    → Option Text
    → Bool
unfolding support_is_found matching
support_stands host name d chunks none none none =
    not d.answerable && none_left d.extracted_fields && not (has_text d.ambiguity_reason)
support_stands host name d chunks (some document) (some page) (some excerpt) =
    support_is_found host d excerpt (matching name document page chunks)
support_stands host name d chunks _ _ _ = false

-- `validate_qwen_decision`
unfoldable pub validate_qwen_decision :
    TextHost → (ℕ → Text) → QwenDecision → List RankedChunk → Outcome QwenDecision
unfolding support_stands chunks_of
validate_qwen_decision host name d ranked =
    refuse_if
      (not (
        support_stands host name d (chunks_of ranked) d.supporting_document d.supporting_page
          d.supporting_excerpt))
      (value d)
