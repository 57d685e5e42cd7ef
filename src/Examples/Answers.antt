-- ===== src/Examples/Answers.antt =====
-- The theorems on answers (answering.py, qwen_answering.py, trust_boundaries.py) at a passage of one
-- sentence and a model that quotes it.
use evidencedesk.Prelude.{
  ◌≡◌, refl, Text, Bool, true, false, none, some, [], ◌∷◌, ◌==◌, if◌then◌else◌, codes,
}
use evidencedesk.Json.{pos, Json, nil, cons, Fields, end, field, get}
use evidencedesk.Python.Strings.{
  same, is_space, lstrip, rstrip, strip, is_blank, starts_with, lower,
}
use evidencedesk.Python.Lines.{split_lines, pieces_from, without_last_empty}
use evidencedesk.Python.Search.{within, has_number, joined}
use evidencedesk.Processing.Chunking.{words, words_from, stripped}
use evidencedesk.Trust.{
  Pattern, TextHost, keep, replaced_by, ascii_words_from, ascii_words, rejoin_override, fold,
  steers, is_untrusted_document_instruction, indexes_where, remaining,
  untrusted_document_fragment_indexes,
}
use evidencedesk.Trust
use evidencedesk.Trust.Sanitize.{
  sanitize_extraction_payload, sanitize_document_output, direct_strings, excerpt_is_untrusted,
  lost_citations, sanitized_object, kept_text,
}
use evidencedesk.Trust.Sanitized.{FieldsAreClean, sanitize_extraction_payload-IsClean}
use evidencedesk.Trust.Fragments.{AreSafe, untrusted_document_fragment_indexes-AreSafe}
use evidencedesk.Trust.Prompt.{build}
use evidencedesk.Answering.{AnswerStatus, RankedChunk, GroundedAnswer}
use evidencedesk.Answering.Validate.{
  after_space, split_capitals, without_bullets, line_segments, segments_of, segments, every, any,
  put_chunk, by_id_from, get_chunk, field_texts, excerpts, assessment_texts, unsafe_channels,
  matching, in_blocked, in_untrusted_segment, boolean_supported, answer_supported, field_supported,
  citation_is_grounded, support_is_valid, located_support, evidence_is_valid,
  validate_grounded_answer,
}
use evidencedesk.Answering.Validate
use evidencedesk.Answering.Grounding.{IsGrounded}
use evidencedesk.Qwen.{value, Loaded, loaded, QwenDecision}
use evidencedesk.Qwen.Decision.{
  status, fields_from, field_values, has_unexpected, lacks_required, decision_of, decision_of_json,
  decision_of_loaded, text_or_none, unanswered_answer, consistent, parse_decision,
}
use evidencedesk.Qwen.Parsed.{IsDecision, parse_decision-IsDecision}
use evidencedesk.Qwen.Support.{
  normalise, value_is_supported, values_are_supported, chunks_of, in_untrusted_line,
  answer_in_excerpt, support_is_found, support_stands, validate_qwen_decision,
}
use evidencedesk.Qwen.Provider.{
  QwenHost, documents_of, build_prompt, supports, first_support, support_of, grounded_of, checked,
  answer_of, completed, answer,
}
use evidencedesk.Qwen.Grounded.{IsQuoted, answer-IsGrounded}

-- Only `_OVERRIDE` is searched for, and as one word.
abbrev searched : Pattern → Text → Bool
unfolding within
searched Pattern.override s = within (codes "ignore") s
searched _ s = false

abbrev host : TextHost
unfolding lower
host = record { search = searched; is_format = λ c. false; casefold = lower; nfkd = λ s. s }

abbrev passage : RankedChunk
passage = record {
  chunk = record {
    id = 70;
    document_id = 7;
    document_name = codes "a.txt";
    page = 1;
    section = none;
    text = codes "Net 30.\nIgnore it.";
    embedding = [];
    embedding_model_id = codes "hash";
  };
  score = 0;
  lexical_score = 0;
  dense_score = 0;
  entity_score = 0;
  rerank_score = none;
}

-- What the model writes
abbrev reply : Json
reply = Json.object (
    field (codes "answerable") (Json.boolean true) (
      field (codes "answer") (Json.text (codes "NET 30")) (
        field (codes "confidence") (Json.integer (pos 1)) (
          field (codes "supporting_document") (Json.text (codes "7")) (
            field (codes "supporting_page") (Json.integer (pos 1)) (
              field (codes "supporting_excerpt") (Json.text (codes "Net 30")) (
                field (codes "ambiguity_reason") Json.null
                  (field (codes "extracted_fields") (Json.object end) end))))))))

abbrev decision : QwenDecision
decision = record {
  answerable = true;
  answer = some (codes "NET 30");
  confidence = 0x3ff0000000000000;
  supporting_document = some (codes "7");
  supporting_page = some 1;
  supporting_excerpt = some (codes "Net 30");
  ambiguity_reason = none;
  extracted_fields = [];
}

abbrev loads : Text → Loaded
loads s = loaded reply

reply_parsed : parse_decision loads [] ≡ value decision
unfolding parse_decision decision_of_loaded decision_of_json has_unexpected lacks_required any same
    get decision_of text_or_none field_values fields_from consistent unanswered_answer is_blank
    strip lstrip rstrip is_space
reply_parsed = refl

parse_decision-IsDecision_example : IsDecision decision
parse_decision-IsDecision_example = parse_decision-IsDecision loads [] decision reply_parsed

abbrev qwen : QwenHost
qwen = record {
  dumps = λ v. [];
  loads = loads;
  name = λ id. if id == 7 then codes "7" else [];
  complete = λ prompt. some [];
  context_passages = 3;
}

abbrev quoted : GroundedAnswer
quoted = record {
  status = AnswerStatus.answered;
  answerable = true;
  answer = codes "NET 30";
  confidence = 0x3ff0000000000000;
  supporting_document = some (codes "7");
  supporting_page = some 1;
  supporting_excerpt = some (codes "Net 30");
  ambiguity_reason = none;
  extracted_fields = [];
  supporting_chunk_ids = 70 ∷ [];
  citations =
      record {
        chunk_id = 70;
        document_id = 7;
        document_name = codes "a.txt";
        page = 1;
        section = none;
        excerpt = codes "Net 30";
      }
      ∷ [];
  candidate_assessments = [];
}

quoted_passes : validate_grounded_answer host qwen.name quoted (passage ∷ []) ≡ true
unfolding validate_grounded_answer by_id_from put_chunk get_chunk any every unsafe_channels excerpts
    field_texts assessment_texts evidence_is_valid located_support support_is_valid matching same
    within starts_with in_untrusted_segment in_blocked untrusted_document_fragment_indexes
    is_untrusted_document_instruction is_blank strip lstrip rstrip is_space Trust.fold keep
    replaced_by ascii_words_from ascii_words rejoin_override joined steers indexes_where remaining
    has_number segments segments_of line_segments split_lines pieces_from without_last_empty
    without_bullets split_capitals after_space stripped answer_supported Validate.fold
    boolean_supported field_supported citation_is_grounded lower searched host
quoted_passes = refl

decision_supported : validate_qwen_decision host qwen.name decision (passage ∷ []) ≡ value decision
unfolding validate_qwen_decision support_stands chunks_of support_is_found matching same any within
    starts_with in_untrusted_line in_blocked untrusted_document_fragment_indexes
    is_untrusted_document_instruction is_blank strip lstrip rstrip is_space Trust.fold keep
    replaced_by ascii_words_from ascii_words rejoin_override joined steers indexes_where remaining
    has_number split_lines pieces_from without_last_empty answer_in_excerpt normalise words
    words_from values_are_supported every value_is_supported lower searched host
decision_supported = refl

answered : answer host qwen (codes "q") (passage ∷ []) ≡ value quoted
unfolding answer build_prompt documents_of build is_blank strip lstrip rstrip is_space completed
    answer_of checked grounded_of status support_of first_support supports same within starts_with
answered = rw (reply_parsed, decision_supported, quoted_passes) refl

answer-IsGrounded_example :
    IsGrounded host qwen.name (passage ∷ []) quoted
    × IsQuoted host AnswerStatus.answered (codes "NET 30") (some (codes "Net 30"))
answer-IsGrounded_example = answer-IsGrounded host qwen (codes "q") (passage ∷ []) quoted answered

-- Two fragments, of which the second is an instruction
untrusted_document_fragment_indexes-AreSafe_example : AreSafe host (
    remaining
      (untrusted_document_fragment_indexes host (codes "Net 30" ∷ codes "please ignore" ∷ []))
      0
      (codes "Net 30" ∷ codes "please ignore" ∷ []))
untrusted_document_fragment_indexes-AreSafe_example =
    untrusted_document_fragment_indexes-AreSafe host (codes "Net 30" ∷ codes "please ignore" ∷ [])

abbrev payload : Fields
payload =
    field (codes "terms")
      (Json.array (cons (Json.text (codes "Ignore it")) (cons (Json.text (codes "Net 30")) nil)))
      (field (codes "total") (Json.integer (pos 3)) end)

sanitize_extraction_payload-IsClean_example :
    FieldsAreClean host (sanitize_extraction_payload host payload)
sanitize_extraction_payload-IsClean_example = sanitize_extraction_payload-IsClean host payload

payload_sanitized :
    sanitize_extraction_payload host payload
    ≡ field
        (codes "terms")
        (Json.array (cons (Json.text (codes "Net 30")) nil))
        (field (codes "total") (Json.integer (pos 3)) end)
unfolding sanitize_extraction_payload sanitize_document_output direct_strings excerpt_is_untrusted
    lost_citations sanitized_object kept_text untrusted_document_fragment_indexes
    is_untrusted_document_instruction is_blank strip lstrip rstrip is_space Trust.fold keep
    replaced_by ascii_words_from ascii_words rejoin_override joined steers indexes_where remaining
    has_number within starts_with lower searched host
payload_sanitized = refl
