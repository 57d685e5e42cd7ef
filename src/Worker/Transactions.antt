-- ===== src/Worker/Transactions.antt =====
-- jobs.py: the transactions of `process_document`, each from its `session_factory()` to its commit.
use evidencedesk.Prelude.{
  ℕ, Text, ◌+◌, Bool, true, false, Option, none, some, List, [], ◌∷◌, ◌++◌, ◌==◌, if◌then◌else◌,
  length,
}
use evidencedesk.Json.{Json}
use evidencedesk.Db.{
  Document, DocumentStatus, ProcessingTask, TaskStatus, ErrorCode, Chunk, Desk, AuditEvent,
  AuditAction, AuditResult, Metadata, Metric, MediaType, StorageKey,
}
use evidencedesk.Db.Rows.{
  find_document, find_task, save_document, save_task, chunks_of, delete_chunks, delete_extractions,
  add_audit, count_metric, is_deleted,
}

-- The dictionary that `process_document` returns, or the exception that leaves it.
pub data JobResult : Type 0 where
  missing deleted : JobResult
  already_completed : ℕ → JobResult
  failed : ErrorCode → JobResult
  completed : ℕ → JobResult
  retry : ℕ → JobResult
  raised : JobResult

-- `_locked_task_and_document`, read by the tests that follow each of its calls: a row is missing,
-- the document is deleted, or both rows are there to be worked on.
pub data Locked : Type 0 where
  missing : Locked
  deleted : ProcessingTask → Document → Locked
  live : ProcessingTask → Document → Locked

abbrev locked_document : ProcessingTask → Option Document → Locked
locked_document task none = Locked.missing
locked_document task (some document) =
    if is_deleted document then Locked.deleted task document else Locked.live task document

abbrev locked_task : ℕ → List Document → Option ProcessingTask → Locked
locked_task document_id documents none = Locked.missing
locked_task document_id documents (some task) =
    if task.document_id == document_id
    then locked_document task (find_document document_id documents)
    else Locked.missing

unfoldable pub locked_task_and_document : ℕ → ℕ → Desk → Locked
locked_task_and_document task_id document_id desk =
    locked_task document_id desk.documents (find_task task_id desk.tasks)

-- What each of the audit events of the worker has in common.
abbrev pub process_event : ProcessingTask → ℕ → AuditResult → Metadata → AuditEvent
process_event task document_id result metadata = record {
  actor_id = none;
  action = AuditAction.document_process;
  document_id = some document_id;
  result = result;
  correlation_id = task.correlation_id;
  metadata_safe = metadata;
}

abbrev pub already_cancelled : TaskStatus → Option ErrorCode → Bool
already_cancelled TaskStatus.failed (some ErrorCode.document_deleted) = true
already_cancelled _ _ = false

-- `_cancel_deleted_document`
unfoldable pub cancel_deleted_document : ℕ → ProcessingTask → Document → Desk → Desk
cancel_deleted_document now task document desk =
    let cancelled = record task {
      status = TaskStatus.failed;
      error_code = some ErrorCode.document_deleted;
      completed_at = some now;
    } in
    let saved = record desk { tasks = save_task cancelled desk.tasks } in
    if already_cancelled task.status task.error_code
    then saved
    else count_metric Metric.cancelled (
        add_audit
          (process_event task document.id AuditResult.cancelled
            (Metadata.attempt_failed ErrorCode.document_deleted task.attempts))
          saved)

-- The rows as a failure leaves them. `again` is the code's `retry`, which puts the document back into the queue.
abbrev pub failed_task : Bool → ErrorCode → ℕ → ProcessingTask → ProcessingTask
failed_task true code now task = record task { status = TaskStatus.queued; error_code = some code }
failed_task false code now task = record task {
  status = TaskStatus.failed;
  error_code = some code;
  completed_at = some now;
}

abbrev pub failed_document : Bool → ErrorCode → Document → Document
failed_document again code document = record document {
  status = if again then DocumentStatus.queued else DocumentStatus.failed;
  error_code = some code;
}

-- The writes and the audit event that the three failure transactions share.
abbrev pub record_failure : ℕ → Bool → ErrorCode → ℕ → ProcessingTask → Document → Desk → Desk
record_failure document_id again code now task document desk =
    add_audit
      (process_event task document_id (if again then AuditResult.retry else AuditResult.failed)
        (Metadata.attempt_failed code task.attempts))
      (record desk {
        tasks = save_task (failed_task again code now task) desk.tasks;
        documents = save_document (failed_document again code document) desk.documents;
      })

-- `_record_storage_failure`: `none` is Python's `None`, so that the caller goes on.
unfoldable pub record_storage_failure : ℕ → ℕ → Bool → ℕ → Desk → Option JobResult × Desk
record_storage_failure document_id task_id again now desk =
    elim (locked_task_and_document task_id document_id desk) [
      | Locked.missing ↦ (some JobResult.missing, desk)
      | Locked.deleted task document ↦
          (some JobResult.deleted, cancel_deleted_document now task document desk)
      | Locked.live task document ↦ (
        none,
        record_failure document_id again
            (if again
              then ErrorCode.storage_temporarily_unavailable
              else ErrorCode.storage_unavailable)
            now task document desk,
      )
    ]

-- `_record_parse_failure`
unfoldable pub record_parse_failure : ℕ → ℕ → ErrorCode → ℕ → Desk → JobResult × Desk
record_parse_failure document_id task_id code now desk =
    elim (locked_task_and_document task_id document_id desk) [
      | Locked.missing ↦ (JobResult.missing, desk)
      | Locked.deleted task document ↦
          (JobResult.deleted, cancel_deleted_document now task document desk)
      | Locked.live task document ↦
          (JobResult.failed code, record_failure document_id false code now task document desk)
    ]

abbrev pub processing_code : Bool → ErrorCode
processing_code again =
    if again then ErrorCode.processing_temporarily_unavailable else ErrorCode.processing_failed

-- `_record_processing_failure`
unfoldable pub record_processing_failure : ℕ → ℕ → Bool → ℕ → Desk → JobResult × Desk
record_processing_failure document_id task_id again now desk =
    elim (locked_task_and_document task_id document_id desk) [
      | Locked.missing ↦ (JobResult.missing, desk)
      | Locked.deleted task document ↦
          (JobResult.deleted, cancel_deleted_document now task document desk)
      | Locked.live task document ↦ (
        JobResult.failed (processing_code again),
        record_failure document_id again (processing_code again) now task document desk,
      )
    ]

-- What the first transaction hands on: the locals `attempt`, `storage_key`, `media_type` and
-- `document_name`.
pub record Work : Type 0 where
  pub attempt : ℕ
  pub storage_key : StorageKey
  pub media_type : MediaType
  pub document_name : Text

pub data Begun : Type 0 where
  finished : JobResult → Begun
  working : Work → Begun

abbrev pub is_completed : DocumentStatus → Bool
is_completed DocumentStatus.completed = true
is_completed _ = false

abbrev pub begun_task : ℕ → ProcessingTask → ProcessingTask
begun_task now task = record task {
  attempts = task.attempts + 1;
  status = TaskStatus.processing;
  started_at = some now;
  error_code = none;
}

abbrev pub begun_document : Document → Document
begun_document document = record document { status = DocumentStatus.processing; error_code = none }

-- The first transaction of `process_document`.
unfoldable pub begin_processing : ℕ → ℕ → ℕ → Desk → Begun × Desk
begin_processing document_id task_id now desk =
    elim (locked_task_and_document task_id document_id desk) [
      | Locked.missing ↦ (Begun.finished JobResult.missing, count_metric Metric.missing desk)
      | Locked.deleted task document ↦
          (Begun.finished JobResult.deleted, cancel_deleted_document now task document desk)
      | Locked.live task document ↦
          if is_completed document.status
          then (
            Begun.finished
                (JobResult.already_completed (length (chunks_of document_id desk.chunks))),
            desk,
          )
          else (
            Begun.working (record {
              attempt = task.attempts + 1;
              storage_key = document.storage_key;
              media_type = document.media_type;
              document_name = document.filename;
            }),
            record desk {
              tasks = save_task (begun_task now task) desk.tasks;
              documents = save_document (begun_document document) desk.documents;
            },
          )
    ]

abbrev pub finished_task : ℕ → ProcessingTask → ProcessingTask
finished_task now task = record task {
  status = TaskStatus.completed;
  completed_at = some now;
  error_code = none;
}

abbrev pub finished_document : ℕ → Document → Document
finished_document now document = record document {
  status = DocumentStatus.completed;
  completed_at = some now;
  error_code = none;
}

abbrev pub finish : ℕ → ℕ → List Chunk → Json → ProcessingTask → Document → Desk → Desk
finish document_id now models payload task document desk =
    add_audit
      (process_event task document_id AuditResult.completed
        (Metadata.attempt_completed (length models) task.attempts))
      (record desk {
        tasks = save_task (finished_task now task) desk.tasks;
        documents = save_document (finished_document now document) desk.documents;
        chunks = delete_chunks document_id desk.chunks ++ models;
        extractions =
            delete_extractions document_id desk.extractions
            ++ record { document_id = document_id; payload = payload } ∷ [];
      })

-- The last transaction of `process_document`, which replaces what was derived from the document.
-- `completed` is counted after it.
unfoldable pub complete_processing : ℕ → ℕ → ℕ → List Chunk → Json → Desk → JobResult × Desk
complete_processing document_id task_id now models payload desk =
    elim (locked_task_and_document task_id document_id desk) [
      | Locked.missing ↦ (JobResult.missing, count_metric Metric.missing desk)
      | Locked.deleted task document ↦
          (JobResult.deleted, cancel_deleted_document now task document desk)
      | Locked.live task document ↦
          if is_completed document.status
          then (JobResult.already_completed (length (chunks_of document_id desk.chunks)), desk)
          else (
            JobResult.completed (length models),
            count_metric Metric.completed
                (finish document_id now models payload task document desk),
          )
    ]
