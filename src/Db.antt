-- ===== src/Db.antt =====
-- apps/api/evidencedesk_api/models.py: the tables that the API and the worker share. A UUID is a
-- number, a timestamp a number of ticks, a digest the number that it spells, and a float of an
-- embedding its bit pattern: the code modelled here copies embeddings and never computes with
-- them. `Desk` is all that outlives a request: the rows, the stored files, the queued jobs and
-- the counters. An audit event's generated columns (`id`, `created_at`) are left out.
pub mod Table
pub mod Rows
pub mod Sound
pub mod Growth
use evidencedesk.Prelude.{ℕ, Text, Bytes, Bool, Option, List}
use evidencedesk.Auth.{Role, Action}
use evidencedesk.Json.{Json}

pub data DocumentStatus : Type 0 where
  queued processing completed failed deleted : DocumentStatus

pub data TaskStatus : Type 0 where
  queued processing completed failed : TaskStatus

-- The values that the code puts into the `error_code` columns.
pub data ErrorCode : Type 0 where
  queue_unavailable storage_temporarily_unavailable storage_unavailable
        processing_temporarily_unavailable processing_failed document_deleted encrypted_pdf
        too_many_pages too_much_extracted_text invalid_pdf pdf_resource_limit pdf_processing_timeout
        invalid_text no_extractable_text too_many_chunks :
      ErrorCode

pub data MediaType : Type 0 where
  application_pdf text_plain text_markdown : MediaType

pub data Suffix : Type 0 where
  pdf txt md : Suffix

-- `f"{document_id}/document{suffix}"`
pub record StorageKey : Type 0 where
  pub owner : ℕ
  pub suffix : Suffix

pub record User : Type 0 where
  pub id : ℕ
  pub username : Text
  pub password_hash : Text
  pub role : Role
  pub is_active : Bool

pub record Dossier : Type 0 where
  pub id : ℕ
  pub name : Text
  pub description : Text
  pub is_synthetic : Bool

pub record Document : Type 0 where
  pub id : ℕ
  pub dossier_id : ℕ
  pub filename : Text
  pub media_type : MediaType
  pub size_bytes : ℕ
  pub content_sha256 : ℕ
  pub storage_key : StorageKey
  pub status : DocumentStatus
  pub is_synthetic : Bool
  pub correlation_id : ℕ
  pub error_code : Option ErrorCode
  pub created_at : ℕ
  pub completed_at : Option ℕ
  pub deleted_at : Option ℕ

pub record ProcessingTask : Type 0 where
  pub id : ℕ
  pub document_id : ℕ
  pub status : TaskStatus
  pub attempts : ℕ
  pub correlation_id : ℕ
  pub error_code : Option ErrorCode
  pub queued_at : ℕ
  pub started_at : Option ℕ
  pub completed_at : Option ℕ

pub record Chunk : Type 0 where
  pub id : ℕ
  pub document_id : ℕ
  pub page : ℕ
  pub section : Option Text
  pub ordinal : ℕ
  pub text : Text
  pub embedding : List ℕ
  pub embedding_model_id : Text

-- `schema_version` is always "supplier-v1".
pub record Extraction : Type 0 where
  pub document_id : ℕ
  pub payload : Json

pub data AuditAction : Type 0 where
  document_process document_upload document_enqueue document_delete document_content_view
        document_extraction_view dossier_ask auth_login authorization_denied :
      AuditAction

pub data AuditResult : Type 0 where
  retry failed cancelled completed denied success deduplicated queued : AuditResult

-- The dictionaries that the code writes into `metadata_safe`.
pub data Metadata : Type 0 where
  nothing : Metadata
  attempt_failed : ErrorCode → ℕ → Metadata
  attempt_completed : ℕ → ℕ → Metadata
  upload : MediaType → ℕ → Metadata
  requested_action : Action → Metadata
  chunk_count : ℕ → Metadata
  of_dossier : ℕ → Metadata

pub record AuditEvent : Type 0 where
  pub actor_id : Option ℕ
  pub action : AuditAction
  pub document_id : Option ℕ
  pub result : AuditResult
  pub correlation_id : ℕ
  pub metadata_safe : Metadata

-- The labels under which `TASKS` and `MODEL_ERRORS` count.
pub data Metric : Type 0 where
  missing cancelled retry failed completed model_error : Metric

-- A call of `process_document` that the queue holds.
pub record Job : Type 0 where
  pub document_id : ℕ
  pub task_id : ℕ
  pub correlation_id : ℕ

pub record StoredFile : Type 0 where
  pub key : StorageKey
  pub content : Bytes

pub record Desk : Type 0 where
  pub users : List User
  pub dossiers : List Dossier
  pub documents : List Document
  pub tasks : List ProcessingTask
  pub chunks : List Chunk
  pub extractions : List Extraction
  pub audit_events : List AuditEvent
  pub files : List StoredFile
  pub jobs : List Job
  pub metrics : List Metric
