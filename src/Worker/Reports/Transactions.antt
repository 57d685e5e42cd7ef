-- ===== src/Worker/Reports/Transactions.antt =====
-- jobs.py: how each transaction ends.
use evidencedesk.Prelude.{
  ℕ, ◌≡◌, refl, inl, inr, Bool, true, false, Option, none, some, List, arith, if◌then◌else◌, length,
  All, Bool-cases,
}
use evidencedesk.Json.{Json}
use evidencedesk.Db.{DocumentStatus, TaskStatus, ErrorCode, Chunk, Desk, Metric}
use evidencedesk.Worker.Transactions.{
  JobResult, Begun, is_completed, processing_code, begin_processing, record_storage_failure,
  record_parse_failure, record_processing_failure, complete_processing,
}
use evidencedesk.Worker.Locking.{Locked-cases}
use evidencedesk.Worker.Reports.{Shows, Reports}
use evidencedesk.Worker.Reports.Rows.{
  record_failure-Shows, finish-Reports, cancel_deleted_document-ShowsCancelled,
  Reports-count_metric,
}

-- A result and the desk that it is returned with.
abbrev pub Ends : ℕ → ℕ → JobResult × Desk → Type 0
Ends i k (r, desk) = Reports i k r desk

module _ (document_id task_id now : ℕ) (desk : Desk) where
  abbrev pub BeginEnds : Begun × Desk → Type 0
  BeginEnds (Begun.finished r, desk') = Reports task_id document_id r desk'
  BeginEnds (Begun.working w, desk') = Unit

  pub begin_processing-Reports : BeginEnds (begin_processing document_id task_id now desk)
  unfolding begin_processing
  begin_processing-Reports = elim (Locked-cases task_id document_id desk) [
    | inl e ↦
        rw (e, begin_processing)
          (Reports-count_metric task_id document_id JobResult.missing desk Metric.missing e)
    | inr (inl (t, d, e, h)) ↦
        rw (e, begin_processing)
          (cancel_deleted_document-ShowsCancelled task_id document_id desk t d h now refl)
    | inr (inr (t, d, e, h)) ↦ elim (Bool-cases (is_completed d.status)) [
      | inl c ↦ rw (e, begin_processing, c) (d, h.document_row, ground arith, refl)
      | inr c ↦ rw (e, begin_processing, c) tt
    ]
  ]

  pub complete_processing-Reports :
      (models : List Chunk) (payload : Json)
      → All (λ (c : Chunk). c.document_id ≡ document_id) models
      → Ends task_id document_id (complete_processing document_id task_id now models payload desk)
  unfolding complete_processing
  complete_processing-Reports models payload own = elim (Locked-cases task_id document_id desk) [
    | inl e ↦
        rw (e, complete_processing)
          (Reports-count_metric task_id document_id JobResult.missing desk Metric.missing e)
    | inr (inl (t, d, e, h)) ↦
        rw (e, complete_processing)
          (cancel_deleted_document-ShowsCancelled task_id document_id desk t d h now refl)
    | inr (inr (t, d, e, h)) ↦ elim (Bool-cases (is_completed d.status)) [
      | inl c ↦ rw (e, complete_processing, c) (d, h.document_row, ground arith, refl)
      | inr c ↦
          rw (e, complete_processing, c)
            (Reports-count_metric task_id document_id (JobResult.completed (length models)) _
              Metric.completed
              (finish-Reports task_id document_id desk t d h now models payload own))
    ]
  ]

  pub record_parse_failure-Reports :
      (code : ErrorCode)
      → Ends task_id document_id (record_parse_failure document_id task_id code now desk)
  unfolding record_parse_failure
  record_parse_failure-Reports code = elim (Locked-cases task_id document_id desk) [
    | inl e ↦ rw (e, record_parse_failure) e
    | inr (inl (t, d, e, h)) ↦
        rw (e, record_parse_failure)
          (cancel_deleted_document-ShowsCancelled task_id document_id desk t d h now refl)
    | inr (inr (t, d, e, h)) ↦
        rw (e, record_parse_failure)
          (record_failure-Shows task_id document_id desk t d h false code now)
  ]

  -- `failed` is not yet a report here: the caller turns it into `retry` where it tries again.
  abbrev pub ProcessingEnds : Bool → JobResult × Desk → Type 0
  ProcessingEnds again (JobResult.failed code, desk') =
      (code ≡ processing_code again)
      × Shows task_id document_id desk' (if again then TaskStatus.queued else TaskStatus.failed)
          (if again then DocumentStatus.queued else DocumentStatus.failed) (some code)
  ProcessingEnds again (JobResult.missing, desk') =
      Reports task_id document_id JobResult.missing desk'
  ProcessingEnds again (JobResult.deleted, desk') =
      Reports task_id document_id JobResult.deleted desk'
  ProcessingEnds again _ = ⊥

  pub record_processing_failure-ends :
      (again : Bool)
      → ProcessingEnds again (record_processing_failure document_id task_id again now desk)
  unfolding record_processing_failure
  record_processing_failure-ends again = elim (Locked-cases task_id document_id desk) [
    | inl e ↦ rw (e, record_processing_failure) e
    | inr (inl (t, d, e, h)) ↦
        rw (e, record_processing_failure)
          (cancel_deleted_document-ShowsCancelled task_id document_id desk t d h now refl)
    | inr (inr (t, d, e, h)) ↦
        rw (e, record_processing_failure)
          (
            refl,
            record_failure-Shows task_id document_id desk t d h again (processing_code again) now,
          )
  ]

  abbrev pub StorageEnds : Bool → Option JobResult × Desk → Type 0
  StorageEnds again (some r, desk') = Reports task_id document_id r desk'
  StorageEnds true (none, desk') =
      Shows task_id document_id desk' TaskStatus.queued DocumentStatus.queued
        (some ErrorCode.storage_temporarily_unavailable)
  StorageEnds false (none, desk') =
      Shows task_id document_id desk' TaskStatus.failed DocumentStatus.failed
        (some ErrorCode.storage_unavailable)

  pub record_storage_failure-ends :
      (again : Bool) → StorageEnds again (record_storage_failure document_id task_id again now desk)
  unfolding record_storage_failure
  record_storage_failure-ends true = elim (Locked-cases task_id document_id desk) [
    | inl e ↦ rw (e, record_storage_failure) e
    | inr (inl (t, d, e, h)) ↦
        rw (e, record_storage_failure)
          (cancel_deleted_document-ShowsCancelled task_id document_id desk t d h now refl)
    | inr (inr (t, d, e, h)) ↦
        rw (e, record_storage_failure)
          (record_failure-Shows task_id document_id desk t d h true _ now)
  ]
  record_storage_failure-ends false = elim (Locked-cases task_id document_id desk) [
    | inl e ↦ rw (e, record_storage_failure) e
    | inr (inl (t, d, e, h)) ↦
        rw (e, record_storage_failure)
          (cancel_deleted_document-ShowsCancelled task_id document_id desk t d h now refl)
    | inr (inr (t, d, e, h)) ↦
        rw (e, record_storage_failure)
          (record_failure-Shows task_id document_id desk t d h false _ now)
  ]
