-- ===== src/Worker/Reports/Rows.antt =====
-- jobs.py: the rows that each transaction leaves.
use evidencedesk.Prelude.{
  ℕ, ◌≡◌, refl, ◌∙◌, ap, inl, inr, Bool, true, false, Option, some, List, [], ◌∷◌, ◌++◌, arith,
  if◌then◌else◌, length, All, Bool-cases,
}
use evidencedesk.Json.{Json}
use evidencedesk.Db.{
  Document, DocumentStatus, ProcessingTask, TaskStatus, ErrorCode, Chunk, Desk, Metric,
}
use evidencedesk.Db.Rows.{
  find_document, find_task, save_document, save_task, find_document-save_document,
  find_task-save_task, delete_chunks, delete_extractions, chunks_of, extractions_of,
  chunks_of_replaced, extractions_of_replaced, count_metric,
}
use evidencedesk.Worker.Transactions.{
  JobResult, locked_task_and_document, cancel_deleted_document, already_cancelled, record_failure,
  finish, failed_task, failed_document, finished_task, finished_document,
}
use evidencedesk.Worker.Locking.{IsHeld, held_task_id, held_document_id}
use evidencedesk.Worker.Reports.{Shows, ShowsCancelled, Reports}

module _ (task_id document_id : ℕ) (desk : Desk) (t : ProcessingTask) (d : Document) {gone : Bool}
    (h : IsHeld task_id document_id desk gone t d) where
  saved_task :
      (t' : ProcessingTask) → t'.id ≡ t.id → find_task task_id (save_task t' desk.tasks) ≡ some t'
  saved_task t' same = ground (
    arith,
    find_task-save_task task_id t' desk.tasks,
    held_task_id task_id document_id desk t d h,
    h.task_row,
  )

  saved_document :
      (d' : Document)
      → d'.id ≡ d.id
      → find_document document_id (save_document d' desk.documents) ≡ some d'
  saved_document d' same = ground (
    arith,
    find_document-save_document document_id d' desk.documents,
    held_document_id task_id document_id desk t d h,
    h.document_row,
  )

  pub record_failure-Shows :
      (again : Bool) (code : ErrorCode) (now : ℕ)
      → Shows task_id document_id
          (record_failure document_id again code now t d desk)
          (if again then TaskStatus.queued else TaskStatus.failed)
          (if again then DocumentStatus.queued else DocumentStatus.failed)
          (some code)
  record_failure-Shows true code now = record {
    t = failed_task true code now t;
    d = failed_document true code d;
    task_row = saved_task (failed_task true code now t) refl;
    document_row = saved_document (failed_document true code d) refl;
    task_status = refl;
    document_status = refl;
    task_code = refl;
    document_code = refl;
  }
  record_failure-Shows false code now = record {
    t = failed_task false code now t;
    d = failed_document false code d;
    task_row = saved_task (failed_task false code now t) refl;
    document_row = saved_document (failed_document false code d) refl;
    task_status = refl;
    document_status = refl;
    task_code = refl;
    document_code = refl;
  }

  own_chunks :
      (models : List Chunk)
      → All (λ (c : Chunk). c.document_id ≡ document_id) models
      → chunks_of document_id (delete_chunks document_id desk.chunks ++ models) ≡ models
  own_chunks models own =
      ground (arith, chunks_of_replaced document_id document_id desk.chunks models own)

  own_extraction :
      (payload : Json)
      → extractions_of document_id (
          delete_extractions document_id desk.extractions
          ++ record { document_id = document_id; payload = payload } ∷ [])
        ≡ record { document_id = document_id; payload = payload } ∷ []
  own_extraction payload = ground (
    arith,
    extractions_of_replaced document_id document_id desk.extractions
        (record { document_id = document_id; payload = payload }) refl,
  )

  pub finish-Reports :
      (now : ℕ) (models : List Chunk) (payload : Json)
      → All (λ (c : Chunk). c.document_id ≡ document_id) models
      → Reports task_id document_id
          (JobResult.completed (length models))
          (finish document_id now models payload t d desk)
  finish-Reports now models payload own = (
    record {
      t = finished_task now t;
      d = finished_document now d;
      task_row = saved_task (finished_task now t) refl;
      document_row = saved_document (finished_document now d) refl;
      task_status = refl;
      document_status = refl;
      task_code = refl;
      document_code = refl;
    },
    ap length (own_chunks models own),
    ap length (own_extraction payload),
  )

  pub cancel_deleted_document-ShowsCancelled :
      (now : ℕ)
      → gone ≡ true
      → ShowsCancelled task_id document_id (cancel_deleted_document now t d desk)
  unfolding cancel_deleted_document
  cancel_deleted_document-ShowsCancelled now dead =
      let cancelled : ProcessingTask = record t {
        status = TaskStatus.failed;
        error_code = some ErrorCode.document_deleted;
        completed_at = some now;
      } in
      let row = saved_task cancelled refl in
      elim (Bool-cases (already_cancelled t.status t.error_code)) [
        | inl e ↦ rw e (record {
          t = cancelled;
          d = d;
          task_row = row;
          document_row = h.document_row;
          task_status = refl;
          task_code = refl;
          gone = h.gone_or_live ∙ dead;
        })
        | inr e ↦ rw e (record {
          t = cancelled;
          d = d;
          task_row = row;
          document_row = h.document_row;
          task_status = refl;
          task_code = refl;
          gone = h.gone_or_live ∙ dead;
        })
      ]

-- A counter changes nothing of what a result reports.
Shows-count_metric :
    (i k : ℕ) (desk : Desk) (m : Metric) {ts : TaskStatus} {ds : DocumentStatus}
    {code : Option ErrorCode}
    → Shows i k desk ts ds code
    → Shows i k (count_metric m desk) ts ds code
Shows-count_metric i k desk m s = record {
  t = s.t;
  d = s.d;
  task_row = s.task_row;
  document_row = s.document_row;
  task_status = s.task_status;
  document_status = s.document_status;
  task_code = s.task_code;
  document_code = s.document_code;
}

pub Reports-count_metric :
    (i k : ℕ) (r : JobResult) (desk : Desk) (m : Metric)
    → Reports i k r desk
    → Reports i k r (count_metric m desk)
unfolding locked_task_and_document
Reports-count_metric i k JobResult.missing desk m h = h
Reports-count_metric i k JobResult.deleted desk m h = record {
  t = h.t;
  d = h.d;
  task_row = h.task_row;
  document_row = h.document_row;
  task_status = h.task_status;
  task_code = h.task_code;
  gone = h.gone;
}
Reports-count_metric i k (JobResult.already_completed n) desk m h = h
Reports-count_metric i k (JobResult.failed code) desk m h = Shows-count_metric i k desk m h
Reports-count_metric i k (JobResult.completed n) desk m h =
    (Shows-count_metric i k desk m h.0, h.1, h.2)
Reports-count_metric i k (JobResult.retry defer) desk m h = (h.0, Shows-count_metric i k desk m h.1)
Reports-count_metric i k JobResult.raised desk m h = h
