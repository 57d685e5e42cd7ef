-- ===== src/Worker/Interleaving.antt =====
-- jobs.py: what `process_document` keeps among the sessions that the schedule lets commit between
-- its transactions: a statement about the desk that each transaction keeps, a run keeps.
use evidencedesk.Prelude.{
  ℕ, ◌≡◌, Bool, true, false, Option, none, some, List, All, Bool-cases, inl, inr, Bytes,
}
use evidencedesk.Json.{Json}
use evidencedesk.Db.{Chunk, Desk, ErrorCode, Metric}
use evidencedesk.Db.Rows.{count_metric}
use evidencedesk.Db.Sound.{IsSound}
use evidencedesk.Processing.{Attempt, value, parse_error, exception, ParsedPage}
use evidencedesk.Worker.Transactions.{
  JobResult, Begun, Work, begin_processing, record_storage_failure, record_parse_failure,
  record_processing_failure, complete_processing,
}
use evidencedesk.Worker.Stages.{Pipeline}
use evidencedesk.Worker.Run.{
  Schedule, settled, storage_settled, fail_stage, fail_storage, fail_parse, persist, after_derive,
  after_parse, after_read, after_begin, process_document,
}
use evidencedesk.Worker.Derived.{Ensures, derive-IsOwn}
use evidencedesk.Worker.Soundness.{
  record_storage_failure-IsSound, record_parse_failure-IsSound, record_processing_failure-IsSound,
  begin_processing-IsSound, complete_processing-IsSound,
}

-- The sessions of a schedule keep `P`.
pub record IsPolite (P : Desk → Type 0) (sc : Schedule) : Type 0 where
  pub before_read : (desk : Desk) → P desk → P (sc.before_read desk)
  pub before_outcome : (desk : Desk) → P desk → P (sc.before_outcome desk)
  pub before_failure : (desk : Desk) → P desk → P (sc.before_failure desk)

-- The transactions of a run keep `P`.
pub record IsKept (P : Desk → Type 0) (document_id task_id : ℕ) : Type 0 where
  pub begun : (now : ℕ) (desk : Desk) → P desk → P (begin_processing document_id task_id now desk).1
  pub storage :
      (now : ℕ) (desk : Desk) (again : Bool)
      → P desk
      → P (record_storage_failure document_id task_id again now desk).1
  pub parse :
      (now : ℕ) (desk : Desk) (code : ErrorCode)
      → P desk
      → P (record_parse_failure document_id task_id code now desk).1
  pub processing :
      (now : ℕ) (desk : Desk) (again : Bool)
      → P desk
      → P (record_processing_failure document_id task_id again now desk).1
  pub completed :
      (now : ℕ) (desk : Desk) (models : List Chunk) (payload : Json)
      → All (λ (c : Chunk). c.document_id ≡ document_id) models
      → P desk
      → P (complete_processing document_id task_id now models payload desk).1
  pub counted : (m : Metric) (desk : Desk) → P desk → P (count_metric m desk)

module _ (P : Desk → Type 0) (p : Pipeline) (sc : Schedule) (polite : IsPolite P sc)
    (document_id task_id : ℕ) (kept : IsKept P document_id task_id) where
  settled-keeps :
      (attempt : ℕ) (again : Bool) (r : JobResult) (desk : Desk)
      → P desk
      → P (settled attempt again r desk).1
  settled-keeps attempt true JobResult.missing desk s = s
  settled-keeps attempt false JobResult.missing desk s = s
  settled-keeps attempt again JobResult.deleted desk s = s
  settled-keeps attempt true _ desk s = kept.counted Metric.retry desk s
  settled-keeps attempt false _ desk s = kept.counted Metric.failed desk s

  storage_settled-keeps :
      (attempt : ℕ) (again : Bool) (terminal : Option JobResult) (desk : Desk)
      → P desk
      → P (storage_settled attempt again terminal desk).1
  storage_settled-keeps attempt true none desk s = kept.counted Metric.retry desk s
  storage_settled-keeps attempt false none desk s = kept.counted Metric.failed desk s
  storage_settled-keeps attempt again (some terminal) desk s = s

  fail_stage-keeps :
      (attempt : ℕ) (desk : Desk) → P desk → P (fail_stage p sc document_id task_id attempt desk).1
  unfolding fail_stage
  fail_stage-keeps attempt desk s = elim (Bool-cases sc.failure_ok) [
    | inl e ↦ rw e (settled-keeps attempt _ _ _ (kept.processing sc.ended desk _ s))
    | inr e ↦ rw e s
  ]

  fail_storage-keeps :
      (attempt : ℕ) (desk : Desk)
      → P desk
      → P (fail_storage p sc document_id task_id attempt desk).1
  unfolding fail_storage
  fail_storage-keeps attempt desk s = elim (Bool-cases sc.failure_ok) [
    | inl e ↦ rw e (storage_settled-keeps attempt _ _ _ (kept.storage sc.ended desk _ s))
    | inr e ↦ rw e s
  ]

  fail_parse-keeps :
      (code : ErrorCode) (desk : Desk)
      → P desk
      → P (fail_parse p sc document_id task_id code desk).1
  unfolding fail_parse
  fail_parse-keeps code desk s =
      let counted = kept.counted Metric.failed desk s in
      elim (Bool-cases sc.failure_ok) [
        | inl e ↦ rw e (kept.parse sc.ended _ code counted)
        | inr e ↦ rw e counted
      ]

  after_derive-keeps :
      (attempt : ℕ) (derived : Attempt (List Chunk × Json)) (desk : Desk)
      → Ensures
          (λ (out : List Chunk × Json). All (λ (c : Chunk). c.document_id ≡ document_id) out.0)
          derived
      → P desk
      → P (after_derive p sc document_id task_id attempt derived desk).1
  unfolding after_derive persist
  after_derive-keeps attempt (value (models, payload)) desk own s = elim (Bool-cases sc.commit_ok) [
    | inl e ↦ rw e (kept.completed sc.ended desk models payload own s)
    | inr e ↦ rw e (fail_stage-keeps attempt _ (polite.before_failure desk s))
  ]
  after_derive-keeps attempt (parse_error code) desk own s = fail_parse-keeps code desk s
  after_derive-keeps attempt exception desk own s =
      fail_stage-keeps attempt _ (kept.counted Metric.model_error desk s)

  after_parse-keeps :
      (work : Work) (parsed : Attempt (List ParsedPage)) (desk : Desk)
      → P desk
      → P (after_parse p sc document_id task_id work parsed desk).1
  unfolding after_parse
  after_parse-keeps work (value pages) desk s =
      after_derive-keeps work.attempt _ desk
        (derive-IsOwn p document_id work.document_name sc.uuid pages) s
  after_parse-keeps work (parse_error code) desk s = fail_parse-keeps code desk s
  after_parse-keeps work exception desk s = s

  after_read-keeps :
      (work : Work) (raw_data : Option Bytes) (desk : Desk)
      → P desk
      → P (after_read p sc document_id task_id work raw_data desk).1
  unfolding after_read
  after_read-keeps work none desk s = fail_storage-keeps work.attempt desk s
  after_read-keeps work (some raw_data) desk s = after_parse-keeps work _ desk s

  pub after_begin-keeps :
      (begun : Begun × Desk) → P begun.1 → P (after_begin p sc document_id task_id begun).1
  unfolding after_begin
  after_begin-keeps (Begun.finished result, desk) s = s
  after_begin-keeps (Begun.working work, desk) s =
      after_read-keeps work _ _ (polite.before_outcome _ (polite.before_read desk s))

  pub process_document-keeps :
      (desk : Desk) → P desk → P (process_document p sc document_id task_id desk).1
  unfolding process_document
  process_document-keeps desk s = elim (Bool-cases sc.begin_ok) [
    | inl e ↦ rw e (after_begin-keeps _ (kept.begun sc.started desk s))
    | inr e ↦ rw e s
  ]

-- A run of `process_document` keeps the tables sound, whatever it meets and however it ends, if
-- the sessions that commit between its transactions keep them sound: in particular no chunk of a
-- deleted document is left behind, whenever it is deleted.
pub process_document-IsSound :
    (p : Pipeline) (sc : Schedule) (document_id task_id : ℕ) (desk : Desk)
    → IsPolite IsSound sc
    → IsSound desk
    → IsSound (process_document p sc document_id task_id desk).1
process_document-IsSound p sc document_id task_id desk polite s =
    process_document-keeps IsSound p sc polite document_id task_id
      (record {
        begun = λ now d h. begin_processing-IsSound document_id task_id now d h;
        storage = λ now d again h. record_storage_failure-IsSound document_id task_id now d h again;
        parse = λ now d code h. record_parse_failure-IsSound document_id task_id now d h code;
        processing =
            λ now d again h. record_processing_failure-IsSound document_id task_id now d h again;
        completed = λ now d models payload own h.
            complete_processing-IsSound document_id task_id now d h models payload own;
        counted = λ m d h. h;
      })
      desk s
