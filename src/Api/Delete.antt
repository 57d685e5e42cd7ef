-- ===== src/Api/Delete.antt =====
-- main.py: `delete_document` and `get_document`.
pub mod Soundness
use evidencedesk.Prelude.{
  ℕ, ◌≡◌, Bool, true, false, Option, none, some, List, [], ◌∷◌, ◌++◌, ◌==◌, if◌then◌else◌, is_some,
}
use evidencedesk.Auth.{UserPrincipal}
use evidencedesk.Storage.{delete}
use evidencedesk.Db.{
  Document, DocumentStatus, ProcessingTask, TaskStatus, ErrorCode, Desk, AuditAction, AuditResult,
  Metadata,
}
use evidencedesk.Db.Rows.{
  find_document, find_task_of, save_document, save_task, delete_chunks, delete_extractions,
  add_audit,
}
use evidencedesk.Api.Responses.{Detail, Response, reply, refused, crashed}

abbrev pub is_settled : TaskStatus → Bool
is_settled TaskStatus.completed = true
is_settled TaskStatus.failed = true
is_settled _ = false

-- The task that a deletion leaves: one that was still to be worked on fails.
abbrev pub stopped_task : ℕ → ProcessingTask → ProcessingTask
stopped_task now t = if is_settled t.status then t else record t {
  status = TaskStatus.failed;
  error_code = some ErrorCode.document_deleted;
  completed_at = some now;
}

abbrev pub stop_task : ℕ → Option ProcessingTask → List ProcessingTask → List ProcessingTask
stop_task now none tasks = tasks
stop_task now (some t) tasks = save_task (stopped_task now t) tasks

abbrev pub deleted_document : ℕ → Document → Document
deleted_document now d = record d { status = DocumentStatus.deleted; deleted_at = some now }

module _ (document_id : ℕ) (principal : UserPrincipal) (correlation_id now : ℕ)
    (disk_ok : Bool) where
  abbrev pub removed : Document → Desk → Desk
  removed d desk =
      add_audit
        (record {
          actor_id = some principal.id;
          action = AuditAction.document_delete;
          document_id = some document_id;
          result = AuditResult.success;
          correlation_id = correlation_id;
          metadata_safe = Metadata.nothing;
        })
        (record desk {
          documents = save_document (deleted_document now d) desk.documents;
          tasks = stop_task now (find_task_of document_id desk.tasks) desk.tasks;
          chunks = delete_chunks document_id desk.chunks;
          extractions = delete_extractions document_id desk.extractions;
          files = delete d.storage_key desk.files;
        })

  abbrev delete_found : Desk → Option Document → Response (Unit {0}) × Desk
  delete_found desk none = (refused 404 Detail.document_not_found, desk)
  delete_found desk (some d) =
      if is_some d.deleted_at
      then (refused 404 Detail.document_not_found, desk)
      else if disk_ok
      then (reply 204 tt, removed d desk)
      else (crashed, desk)

  -- `delete_document`. Without `disk_ok` an `OSError` of the file leaves it, and nothing is committed.
  unfoldable pub delete_document : Desk → Response (Unit {0}) × Desk
  delete_document desk = delete_found desk (find_document document_id desk.documents)
