-- ===== src/Worker/Run.antt =====
-- jobs.py: `process_document`.
use evidencedesk.Prelude.{ℕ, ◌*◌, Bytes, Bool, Option, none, some, List, ltb, if◌then◌else◌}
use evidencedesk.Json.{Json}
use evidencedesk.Db.{Chunk, Desk, ErrorCode, Metric, StorageKey}
use evidencedesk.Db.Rows.{count_metric}
use evidencedesk.Storage
use evidencedesk.Processing.{Attempt, ParsedPage, value, parse_error, exception}
use evidencedesk.Worker.Transactions.{
  JobResult, Begun, Work, begin_processing, record_storage_failure, record_parse_failure,
  record_processing_failure, complete_processing,
}
use evidencedesk.Worker.Stages.{Pipeline, derive}

-- All that a run of `process_document` meets: the clock at each transaction, the identifiers that
-- `uuid4` returns, whether the disk can be read, whether the first transaction, the last one and the
-- one that records a failure commit, and what other sessions commit before the file is read, before the outcome is recorded, and before a failed
-- commit is.
pub record Schedule : Type 0 where
  pub started : ℕ
  pub ended : ℕ
  pub uuid : ℕ → ℕ
  pub disk_ok : Bool
  pub begin_ok : Bool
  pub commit_ok : Bool
  pub failure_ok : Bool
  pub before_read : Desk → Desk
  pub before_outcome : Desk → Desk
  pub before_failure : Desk → Desk

abbrev pub retries : ℕ
retries = 3

-- The end of the two handlers that record a failed stage, from `should_retry` on.
abbrev pub settled : ℕ → Bool → JobResult → Desk → JobResult × Desk
settled attempt again JobResult.missing desk = (JobResult.missing, desk)
settled attempt again JobResult.deleted desk = (JobResult.deleted, desk)
settled attempt again other desk =
    if again
    then (JobResult.retry (attempt * 2), count_metric Metric.retry desk)
    else (JobResult.failed ErrorCode.processing_failed, count_metric Metric.failed desk)

-- The same after `_record_storage_failure`, whose `None` lets the handler go on.
abbrev pub storage_settled : ℕ → Bool → Option JobResult → Desk → JobResult × Desk
storage_settled attempt again (some terminal) desk = (terminal, desk)
storage_settled attempt again none desk =
    if again
    then (JobResult.retry (attempt * 2), count_metric Metric.retry desk)
    else (JobResult.failed ErrorCode.storage_unavailable, count_metric Metric.failed desk)

module _ (p : Pipeline) (sc : Schedule) (document_id task_id : ℕ) where
  -- Where the transaction that records a failure does not commit, its exception leaves the run.
  abbrev pub recorded : Desk → JobResult × Desk → JobResult × Desk
  recorded desk end = if sc.failure_ok then end else (JobResult.raised, desk)

  -- `except Exception` of a stage or of the last transaction
  unfoldable pub fail_stage : ℕ → Desk → JobResult × Desk
  unfolding record_processing_failure
  fail_stage attempt desk =
      let (failure, desk') =
        record_processing_failure document_id task_id (ltb attempt retries) sc.ended desk in
      recorded desk (settled attempt (ltb attempt retries) failure desk')

  -- `except OSError` of the read
  unfoldable pub fail_storage : ℕ → Desk → JobResult × Desk
  unfolding record_storage_failure
  fail_storage attempt desk =
      let (terminal, desk') =
        record_storage_failure document_id task_id (ltb attempt retries) sc.ended desk in
      recorded desk (storage_settled attempt (ltb attempt retries) terminal desk')

  -- `except DocumentParseError`
  unfoldable pub fail_parse : ErrorCode → Desk → JobResult × Desk
  unfolding record_parse_failure
  fail_parse code desk =
      let counted = count_metric Metric.failed desk in
      recorded counted (record_parse_failure document_id task_id code sc.ended counted)

  -- The last `try`: a commit that fails is rolled back.
  unfoldable pub persist : ℕ → List Chunk → Json → Desk → JobResult × Desk
  unfolding complete_processing fail_stage
  persist attempt models payload desk =
      if sc.commit_ok
      then complete_processing document_id task_id sc.ended models payload desk
      else fail_stage attempt (sc.before_failure desk)

  unfoldable pub after_derive : ℕ → Attempt (List Chunk × Json) → Desk → JobResult × Desk
  unfolding persist fail_parse fail_stage
  after_derive attempt (value (models, payload)) desk = persist attempt models payload desk
  after_derive attempt (parse_error code) desk = fail_parse code desk
  after_derive attempt exception desk = fail_stage attempt (count_metric Metric.model_error desk)

  unfoldable pub after_parse : Work → Attempt (List ParsedPage) → Desk → JobResult × Desk
  unfolding after_derive derive fail_parse
  after_parse work (value pages) desk =
      after_derive work.attempt (derive p document_id work.document_name sc.uuid pages) desk
  after_parse work (parse_error code) desk = fail_parse code desk
  after_parse work exception desk = (JobResult.raised, desk)

  unfoldable pub after_read : Work → Option Bytes → Desk → JobResult × Desk
  unfolding after_parse fail_storage
  after_read work none desk = fail_storage work.attempt desk
  after_read work (some raw_data) desk =
      after_parse work (p.parse_document raw_data work.media_type) desk

  -- `worker.storage.get(storage_key)`: `none` is an `OSError`.
  abbrev pub read : StorageKey → Desk → Option Bytes
  read key desk = if sc.disk_ok then Storage.get key desk.files else none

  unfoldable pub after_begin : Begun × Desk → JobResult × Desk
  unfolding after_read Storage.get
  after_begin (Begun.finished result, desk) = (result, desk)
  after_begin (Begun.working work, desk) =
      let reading = sc.before_read desk in
      after_read work (read work.storage_key reading) (sc.before_outcome reading)

  unfoldable pub process_document : Desk → JobResult × Desk
  unfolding begin_processing after_begin
  process_document desk =
      if sc.begin_ok
      then after_begin (begin_processing document_id task_id sc.started desk)
      else (JobResult.raised, desk)
