-- ===== src/Evidence.antt =====
-- apps/api/evidencedesk_api/retrieval.py: a passage as the retrieval and the extraction see it.
use evidencedesk.Prelude.{ℕ, Text, Option, List}

pub record EvidenceChunk : Type 0 where
  pub id : ℕ
  pub document_id : ℕ
  pub document_name : Text
  pub page : ℕ
  pub section : Option Text
  pub text : Text
  pub embedding : List ℕ
  pub embedding_model_id : Text
