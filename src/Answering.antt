-- ===== src/Answering.antt =====
-- apps/api/evidencedesk_api/answering.py and retrieval.py: answers, their citations, and the passages
-- that they are drawn from. A score or a confidence is a float, the number of its 64 bits.
pub mod Validate
pub mod Passages
pub mod Trusted
pub mod Grounding
use evidencedesk.Prelude.{ℕ, Text, Bool, Option, List}
use evidencedesk.Evidence.{EvidenceChunk}

pub data AnswerStatus : Type 0 where
  answered partially_supported ambiguous abstained : AnswerStatus

-- `str | tuple[str, ...]`
pub data FieldValue : Type 0 where
  one : Text → FieldValue
  many : List Text → FieldValue

pub record RankedChunk : Type 0 where
  pub chunk : EvidenceChunk
  pub score : ℕ
  pub lexical_score : ℕ
  pub dense_score : ℕ
  pub entity_score : ℕ
  pub rerank_score : Option ℕ

pub record Citation : Type 0 where
  pub chunk_id : ℕ
  pub document_id : ℕ
  pub document_name : Text
  pub page : ℕ
  pub section : Option Text
  pub excerpt : Text

-- `supporting_document` is what a model wrote; it names a document by the text of its UUID.
pub record PassageCandidateAssessment : Type 0 where
  pub answerable : Bool
  pub answer : Option Text
  pub confidence : ℕ
  pub supporting_document : Option Text
  pub supporting_page : Option ℕ
  pub supporting_excerpt : Option Text
  pub ambiguity_reason : Option Text
  pub extracted_fields : List (Text × FieldValue)
  pub supporting_chunk_id : ℕ

pub record GroundedAnswer : Type 0 where
  pub status : AnswerStatus
  pub answerable : Bool
  pub answer : Text
  pub confidence : ℕ
  pub supporting_document : Option Text
  pub supporting_page : Option ℕ
  pub supporting_excerpt : Option Text
  pub ambiguity_reason : Option Text
  pub extracted_fields : List (Text × FieldValue)
  pub supporting_chunk_ids : List ℕ
  pub citations : List Citation
  pub candidate_assessments : List PassageCandidateAssessment
