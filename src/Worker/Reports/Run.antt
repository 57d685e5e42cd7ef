-- ===== src/Worker/Reports/Run.antt =====
-- jobs.py: whatever a run returns is what the tables show when it ends.
use evidencedesk.Prelude.{
  ℕ, ◌≡◌, Bool, true, false, Option, none, some, List, ltb, All, Bool-cases, inl, inr, Bytes,
}
use evidencedesk.Json.{Json}
use evidencedesk.Db.{Chunk, Desk, ErrorCode, Metric}
use evidencedesk.Processing.{Attempt, value, parse_error, exception, ParsedPage}
use evidencedesk.Worker.Transactions.{
  JobResult, Begun, Work, begin_processing, record_storage_failure, record_processing_failure,
}
use evidencedesk.Worker.Stages.{Pipeline}
use evidencedesk.Worker.Run.{
  Schedule, retries, settled, storage_settled, fail_stage, fail_storage, fail_parse, persist,
  after_derive, after_parse, after_read, after_begin, process_document,
}
use evidencedesk.Worker.Derived.{Ensures, derive-IsOwn}
use evidencedesk.Worker.Reports.{Reports}
use evidencedesk.Worker.Reports.Rows.{Reports-count_metric}
use evidencedesk.Worker.Reports.Transactions.{
  Ends, BeginEnds, ProcessingEnds, StorageEnds, begin_processing-Reports,
  complete_processing-Reports, record_parse_failure-Reports, record_processing_failure-ends,
  record_storage_failure-ends,
}

module _ (p : Pipeline) (sc : Schedule) (document_id task_id : ℕ) where
  settled-Reports :
      (attempt : ℕ) (again : Bool) (end : JobResult × Desk) (now : ℕ) (desk : Desk)
      → ProcessingEnds document_id task_id now desk again end
      → Ends task_id document_id (settled attempt again end.0 end.1)
  settled-Reports attempt again (JobResult.missing, desk') now desk h = h
  settled-Reports attempt again (JobResult.deleted, desk') now desk h = h
  settled-Reports attempt true (JobResult.failed code, desk') now desk h =
      Reports-count_metric task_id document_id (JobResult.retry attempt) desk' Metric.retry
        (code, h.1)
  settled-Reports attempt false (JobResult.failed code, desk') now desk h =
      Reports-count_metric task_id document_id (JobResult.failed ErrorCode.processing_failed) desk'
        Metric.failed (rw h.0 at h.1)
  settled-Reports attempt again (JobResult.already_completed n, desk') now desk h = absurd h
  settled-Reports attempt again (JobResult.completed n, desk') now desk h = absurd h
  settled-Reports attempt again (JobResult.retry n, desk') now desk h = absurd h
  settled-Reports attempt again (JobResult.raised, desk') now desk h = absurd h

  storage_settled-Reports :
      (attempt : ℕ) (again : Bool) (end : Option JobResult × Desk) (now : ℕ) (desk : Desk)
      → StorageEnds document_id task_id now desk again end
      → Ends task_id document_id (storage_settled attempt again end.0 end.1)
  storage_settled-Reports attempt true (none, desk') now desk h =
      Reports-count_metric task_id document_id (JobResult.retry attempt) desk' Metric.retry
        (ErrorCode.storage_temporarily_unavailable, h)
  storage_settled-Reports attempt false (none, desk') now desk h =
      Reports-count_metric task_id document_id (JobResult.failed ErrorCode.storage_unavailable)
        desk' Metric.failed h
  storage_settled-Reports attempt true (some r, desk') now desk h = h
  storage_settled-Reports attempt false (some r, desk') now desk h = h

  fail_stage-Reports :
      (attempt : ℕ) (desk : Desk)
      → Ends task_id document_id (fail_stage p sc document_id task_id attempt desk)
  unfolding fail_stage
  fail_stage-Reports attempt desk = elim (Bool-cases sc.failure_ok) [
    | inl e ↦ rw e (
        settled-Reports attempt (ltb attempt retries)
          (record_processing_failure document_id task_id (ltb attempt retries) sc.ended desk)
          sc.ended desk
          (record_processing_failure-ends document_id task_id sc.ended desk (ltb attempt retries)))
    | inr e ↦ rw e tt
  ]

  fail_storage-Reports :
      (attempt : ℕ) (desk : Desk)
      → Ends task_id document_id (fail_storage p sc document_id task_id attempt desk)
  unfolding fail_storage
  fail_storage-Reports attempt desk = elim (Bool-cases sc.failure_ok) [
    | inl e ↦ rw e (
        storage_settled-Reports attempt (ltb attempt retries)
          (record_storage_failure document_id task_id (ltb attempt retries) sc.ended desk) sc.ended
          desk
          (record_storage_failure-ends document_id task_id sc.ended desk (ltb attempt retries)))
    | inr e ↦ rw e tt
  ]

  fail_parse-Reports :
      (code : ErrorCode) (desk : Desk)
      → Ends task_id document_id (fail_parse p sc document_id task_id code desk)
  unfolding fail_parse
  fail_parse-Reports code desk = elim (Bool-cases sc.failure_ok) [
    | inl e ↦ rw e (record_parse_failure-Reports document_id task_id sc.ended _ code)
    | inr e ↦ rw e tt
  ]

  after_derive-Reports :
      (attempt : ℕ) (derived : Attempt (List Chunk × Json)) (desk : Desk)
      → Ensures
          (λ (out : List Chunk × Json). All (λ (c : Chunk). c.document_id ≡ document_id) out.0)
          derived
      → Ends task_id document_id (after_derive p sc document_id task_id attempt derived desk)
  unfolding after_derive persist
  after_derive-Reports attempt (value (models, payload)) desk own = elim (Bool-cases sc.commit_ok) [
    | inl e ↦
        rw e (complete_processing-Reports document_id task_id sc.ended desk models payload own)
    | inr e ↦ rw e (fail_stage-Reports attempt (sc.before_failure desk))
  ]
  after_derive-Reports attempt (parse_error code) desk own = fail_parse-Reports code desk
  after_derive-Reports attempt exception desk own = fail_stage-Reports attempt _

  after_parse-Reports :
      (work : Work) (parsed : Attempt (List ParsedPage)) (desk : Desk)
      → Ends task_id document_id (after_parse p sc document_id task_id work parsed desk)
  unfolding after_parse
  after_parse-Reports work (value pages) desk =
      after_derive-Reports work.attempt _ desk
        (derive-IsOwn p document_id work.document_name sc.uuid pages)
  after_parse-Reports work (parse_error code) desk = fail_parse-Reports code desk
  after_parse-Reports work exception desk = tt

  after_read-Reports :
      (work : Work) (raw_data : Option Bytes) (desk : Desk)
      → Ends task_id document_id (after_read p sc document_id task_id work raw_data desk)
  unfolding after_read
  after_read-Reports work none desk = fail_storage-Reports work.attempt desk
  after_read-Reports work (some raw_data) desk = after_parse-Reports work _ desk

  after_begin-Reports :
      (begun : Begun × Desk) (now : ℕ) (desk : Desk)
      → BeginEnds document_id task_id now desk begun
      → Ends task_id document_id (after_begin p sc document_id task_id begun)
  unfolding after_begin
  after_begin-Reports (Begun.finished result, desk') now desk h = h
  after_begin-Reports (Begun.working work, desk') now desk h = after_read-Reports work _ _

  -- Whatever a run meets, what it returns is what the tables show when it ends: `completed` and
  -- `already_completed` come with a completed document and its number of chunks, `failed` with a
  -- failed task and document under that code, a `Retry` with both queued, `deleted` with a
  -- cancelled task, and `missing` with rows that cannot be found.
  pub process_document-Reports :
      (desk : Desk)
      → let (r, desk') = process_document p sc document_id task_id desk in
        Reports task_id document_id r desk'
  unfolding process_document
  process_document-Reports desk = elim (Bool-cases sc.begin_ok) [
    | inl e ↦ rw e (
        after_begin-Reports (begin_processing document_id task_id sc.started desk) sc.started desk
          (begin_processing-Reports document_id task_id sc.started desk))
    | inr e ↦ rw e tt
  ]
