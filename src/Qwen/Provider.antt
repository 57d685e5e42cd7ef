-- ===== src/Qwen/Provider.antt =====
-- qwen_answering.py: `_build_prompt` and `QwenAnswerProvider.answer`.
use evidencedesk.Prelude.{
  ℕ, Text, Bool, Option, none, some, List, [], ◌∷◌, ◌&&◌, ◌==◌, if◌then◌else◌, codes, take,
}
use evidencedesk.Json.{Json}
use evidencedesk.Python.Strings.{same}
use evidencedesk.Python.Search.{within}
use evidencedesk.Processing.Chunking.{is_empty}
use evidencedesk.Evidence.{EvidenceChunk}
use evidencedesk.Trust.{TextHost}
use evidencedesk.Trust.Prompt.{UntrustedDocumentContent, build, user_payload}
use evidencedesk.Answering.{AnswerStatus, RankedChunk, Citation, GroundedAnswer}
use evidencedesk.Answering.Validate.{validate_grounded_answer}
use evidencedesk.Qwen.{Outcome, value, grounding_error, exception, ◌>>=◌, Loaded, QwenDecision}
use evidencedesk.Qwen.Decision.{status, parse_decision}
use evidencedesk.Qwen.Support.{validate_qwen_decision}

-- What the provider calls: `json`, `str` of a UUID, and the model, which may fail. The run's seed and
-- numbers of tokens are part of the model.
pub record QwenHost : Type 0 where
  pub dumps : Json → Text
  pub loads : Text → Loaded
  pub name : ℕ → Text
  pub complete : Text → Option Text
  pub context_passages : ℕ

unfoldable pub documents_of : (ℕ → Text) → List RankedChunk → List UntrustedDocumentContent
documents_of name [] = []
documents_of name (item ∷ rest) =
    record {
      document_id = name item.chunk.document_id;
      page = item.chunk.page;
      chunk_id = name item.chunk.id;
      text = item.chunk.text;
    }
    ∷ documents_of name rest

-- `_build_prompt`: an empty question is a `ValueError`.
unfoldable pub build_prompt : QwenHost → Text → List RankedChunk → Option Text
unfolding documents_of build user_payload
build_prompt qwen question ranked = elim (build question (documents_of qwen.name ranked)) [
  | none ↦ none
  | some separated ↦ some (qwen.dumps (user_payload separated))
]

-- The test of the first passage that supports a decision
unfoldable pub supports : (ℕ → Text) → Text → ℕ → Text → EvidenceChunk → Bool
unfolding same within
supports name document page excerpt chunk =
    same (name chunk.document_id) document && chunk.page == page && within excerpt chunk.text

unfoldable pub first_support :
    (ℕ → Text) → Text → ℕ → Text → List RankedChunk → Option EvidenceChunk
unfolding supports
first_support name document page excerpt [] = none
first_support name document page excerpt (item ∷ rest) =
    let later = first_support name document page excerpt rest in
    if supports name document page excerpt item.chunk then some item.chunk else later

unfoldable pub support_of :
    (ℕ → Text) → Option Text → Option ℕ → Option Text → List RankedChunk → Option EvidenceChunk
unfolding first_support
support_of name (some document) (some page) (some excerpt) context =
    first_support name document page excerpt context
support_of name _ _ _ context = none

abbrev pub text_or_empty : Option Text → Text
text_or_empty none = []
text_or_empty (some s) = s

abbrev pub cited : QwenDecision → Option EvidenceChunk → List Citation
cited d none = []
cited d (some chunk) =
    record {
      chunk_id = chunk.id;
      document_id = chunk.document_id;
      document_name = chunk.document_name;
      page = chunk.page;
      section = chunk.section;
      excerpt = text_or_empty d.supporting_excerpt;
    }
    ∷ []

abbrev pub ids_of : Option EvidenceChunk → List ℕ
ids_of none = []
ids_of (some chunk) = chunk.id ∷ []

abbrev pub fallback : AnswerStatus → Text
fallback AnswerStatus.ambiguous = codes "Conflicting evidence was found; review the cited passage."
fallback _ = codes "Insufficient evidence in the selected dossier."

-- `decision.answer or ...`
abbrev pub answer_or : Option Text → Text → Text
answer_or none message = message
answer_or (some s) message = if is_empty s then message else s

unfoldable pub grounded_of : QwenDecision → Option EvidenceChunk → GroundedAnswer
unfolding status
grounded_of d support = record {
  status = status d;
  answerable = d.answerable;
  answer = answer_or d.answer (fallback (status d));
  confidence = d.confidence;
  supporting_document = d.supporting_document;
  supporting_page = d.supporting_page;
  supporting_excerpt = d.supporting_excerpt;
  ambiguity_reason = d.ambiguity_reason;
  extracted_fields = d.extracted_fields;
  supporting_chunk_ids = ids_of support;
  citations = cited d support;
  candidate_assessments = [];
}

-- `validate_grounded_answer(grounded, context)`, and the return
unfoldable pub checked :
    TextHost → (ℕ → Text) → GroundedAnswer → List RankedChunk → Outcome GroundedAnswer
unfolding validate_grounded_answer
checked host name g context =
    if validate_grounded_answer host name g context then value g else grounding_error

unfoldable pub answer_of : TextHost → QwenHost → List RankedChunk → Text → Outcome GroundedAnswer
unfolding parse_decision validate_qwen_decision checked grounded_of support_of
answer_of host qwen context raw = parse_decision qwen.loads raw >>= λ parsed.
    validate_qwen_decision host qwen.name parsed context >>= λ (d : QwenDecision).
    checked host qwen.name
      (grounded_of d
        (support_of qwen.name d.supporting_document d.supporting_page d.supporting_excerpt context))
      context

unfoldable pub completed :
    TextHost → QwenHost → List RankedChunk → Option Text → Outcome GroundedAnswer
unfolding answer_of
completed host qwen context none = exception
completed host qwen context (some raw) = answer_of host qwen context raw

-- `QwenAnswerProvider.answer`
unfoldable pub answer : TextHost → QwenHost → Text → List RankedChunk → Outcome GroundedAnswer
unfolding build_prompt completed
answer host qwen question ranked =
    let context = take qwen.context_passages ranked in
    elim (build_prompt qwen question context) [
      | none ↦ exception
      | some prompt ↦ completed host qwen context (qwen.complete prompt)
    ]
