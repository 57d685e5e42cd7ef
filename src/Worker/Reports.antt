-- ===== src/Worker/Reports.antt =====
-- jobs.py: the results of a run, as statements about what the tables show when it ends.
pub mod Rows
pub mod Transactions
pub mod Run
use evidencedesk.Prelude.{ℕ, ◌≡◌, true, Option, none, some, length}
use evidencedesk.Db.{Document, DocumentStatus, ProcessingTask, TaskStatus, ErrorCode, Desk}
use evidencedesk.Db.Rows.{find_document, find_task, chunks_of, extractions_of, is_deleted}
use evidencedesk.Worker.Transactions.{JobResult, Locked, locked_task_and_document}

-- The task and the document as the tables hold them.
pub record Shows (task_id document_id : ℕ) (desk : Desk) (ts : TaskStatus) (ds : DocumentStatus)
    (code : Option ErrorCode) : Type 0 where
  pub t : ProcessingTask
  pub d : Document
  pub task_row : find_task task_id desk.tasks ≡ some t
  pub document_row : find_document document_id desk.documents ≡ some d
  pub task_status : t.status ≡ ts
  pub document_status : d.status ≡ ds
  pub task_code : t.error_code ≡ code
  pub document_code : d.error_code ≡ code

-- The task of a deleted document, cancelled.
pub record ShowsCancelled (task_id document_id : ℕ) (desk : Desk) : Type 0 where
  pub t : ProcessingTask
  pub d : Document
  pub task_row : find_task task_id desk.tasks ≡ some t
  pub document_row : find_document document_id desk.documents ≡ some d
  pub task_status : t.status ≡ TaskStatus.failed
  pub task_code : t.error_code ≡ some ErrorCode.document_deleted
  pub gone : is_deleted d ≡ true

-- What each result tells of the tables.
abbrev pub Reports : ℕ → ℕ → JobResult → Desk → Type 0
Reports i k JobResult.missing desk = locked_task_and_document i k desk ≡ Locked.missing
Reports i k JobResult.deleted desk = ShowsCancelled i k desk
Reports i k (JobResult.already_completed n) desk =
    (d : Document) × (find_document k desk.documents ≡ some d)
    × (d.status ≡ DocumentStatus.completed)
    × (n ≡ length (chunks_of k desk.chunks))
Reports i k (JobResult.failed code) desk =
    Shows i k desk TaskStatus.failed DocumentStatus.failed (some code)
Reports i k (JobResult.completed n) desk =
    Shows i k desk TaskStatus.completed DocumentStatus.completed none
    × (length (chunks_of k desk.chunks) ≡ n)
    × (length (extractions_of k desk.extractions) ≡ 1)
Reports i k (JobResult.retry defer) desk =
    (code : ErrorCode) × Shows i k desk TaskStatus.queued DocumentStatus.queued (some code)
Reports i k JobResult.raised desk = Unit
