-- ===== src/System.antt =====
-- The API and the worker together (apps/api/evidencedesk_api/main.py and
-- apps/worker/evidencedesk_worker/jobs.py): any number of uploads, deletions and worker runs, whose
-- transactions interleave in any order. A run that dies between two transactions is a run that takes
-- no further step. An upload is one step, of which the sessions in between are its own: they keep the
-- tables sound, draw none of its identifiers, and do not delete its document while its enqueueing
-- fails.
pub mod Safety
use evidencedesk.Prelude.{ℕ, ◌≡◌, Bytes, Bool, List, [], All}
use evidencedesk.Json.{Json}
use evidencedesk.Auth.{UserPrincipal}
use evidencedesk.Db.{Chunk, Desk, ErrorCode, Metric}
use evidencedesk.Db.Rows.{count_metric}
use evidencedesk.Worker.Transactions.{
  begin_processing, record_storage_failure, record_parse_failure, record_processing_failure,
  complete_processing,
}
use evidencedesk.Api.Upload.{Settings, UploadRequest, UploadWorld, upload_document}
use evidencedesk.Api.Upload.Soundness.{IsFresh, IsPolite}
use evidencedesk.Api.Delete.{delete_document}

pub data Step (sha256 : Bytes → ℕ) : Desk → Desk → Type 0 where
  upload :
      (settings : Settings) (r : UploadRequest) (w : UploadWorld) (desk : Desk)
      → IsFresh w desk
      → IsPolite w
      → Step sha256 desk (upload_document sha256 settings r w desk).1
  delete :
      (document_id : ℕ) (principal : UserPrincipal) (correlation_id now : ℕ) (disk_ok : Bool)
      (desk : Desk)
      → Step sha256 desk (delete_document document_id principal correlation_id now disk_ok desk).1
  begin :
      (document_id task_id now : ℕ) (desk : Desk)
      → Step sha256 desk (begin_processing document_id task_id now desk).1
  storage_failure :
      (document_id task_id now : ℕ) (again : Bool) (desk : Desk)
      → Step sha256 desk (record_storage_failure document_id task_id again now desk).1
  parse_failure :
      (document_id task_id now : ℕ) (code : ErrorCode) (desk : Desk)
      → Step sha256 desk (record_parse_failure document_id task_id code now desk).1
  processing_failure :
      (document_id task_id now : ℕ) (again : Bool) (desk : Desk)
      → Step sha256 desk (record_processing_failure document_id task_id again now desk).1
  complete :
      (document_id task_id now : ℕ) (models : List Chunk) (payload : Json) (desk : Desk)
      → All (λ (c : Chunk). c.document_id ≡ document_id) models
      → Step sha256 desk (complete_processing document_id task_id now models payload desk).1
  count : (m : Metric) (desk : Desk) → Step sha256 desk (count_metric m desk)

pub data Reach (sha256 : Bytes → ℕ) (start : Desk) : Desk → Type 0 where
  here : Reach sha256 start start
  next : {a b : Desk} → Reach sha256 start a → Step sha256 a b → Reach sha256 start b

-- A desk with users and dossiers, before the first upload
abbrev pub IsEmpty : Desk → Type 0
IsEmpty desk =
    (desk.documents ≡ []) × (desk.tasks ≡ []) × (desk.chunks ≡ []) × (desk.extractions ≡ [])
