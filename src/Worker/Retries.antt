-- ===== src/Worker/Retries.antt =====
-- jobs.py: attempts are counted and retries end. The worker is run again after each `Retry`, at
-- most `max_tries = 3` times (apps/worker/evidencedesk_worker/main.py, `WorkerSettings`).
use evidencedesk.Prelude.{
  ℕ, ◌*◌, ◌<◌, ◌≡◌, refl, Bool, Option, none, some, List, arith, ltb, Bool-cases, inl, inr, Bytes,
}
use evidencedesk.Json.{Json}
use evidencedesk.Db.{Chunk, Desk, ErrorCode}
use evidencedesk.Processing.{Attempt, value, parse_error, exception, ParsedPage}
use evidencedesk.Worker.Transactions.{
  JobResult, Begun, Work, begin_processing, record_storage_failure, record_parse_failure,
  complete_processing, is_completed,
}
use evidencedesk.Worker.Locking.{Locked-cases}
use evidencedesk.Worker.Stages.{Pipeline}
use evidencedesk.Worker.Run.{
  Schedule, retries, settled, storage_settled, fail_stage, fail_storage, fail_parse, persist,
  after_derive, after_parse, after_read, after_begin, process_document,
}

-- A result asks for a retry only before the third attempt, and waits twice as many seconds as
-- there were attempts.
abbrev pub Retries : ℕ → JobResult → Type 0
Retries attempt (JobResult.retry defer) = (attempt < 3) × (defer ≡ attempt * 2)
Retries attempt _ = Unit

abbrev pub NoRetry : JobResult → Type 0
NoRetry (JobResult.retry defer) = ⊥
NoRetry _ = Unit

NoRetry-Retries : (attempt : ℕ) (r : JobResult) → NoRetry r → Retries attempt r
NoRetry-Retries attempt (JobResult.retry defer) h = absurd h
NoRetry-Retries attempt JobResult.missing h = tt
NoRetry-Retries attempt _ h = tt

settled-Retries :
    (attempt : ℕ) (r : JobResult) (desk : Desk)
    → Retries attempt (settled attempt (ltb attempt retries) r desk).0
settled-Retries attempt JobResult.missing desk = tt
settled-Retries attempt JobResult.deleted desk = tt
settled-Retries attempt _ desk = elim (Bool-cases (ltb attempt 3)) [
  | inl e ↦ rw e (ground arith, refl)
  | inr e ↦ rw e tt
]

abbrev TerminalNoRetry : Option JobResult → Type 0
TerminalNoRetry none = Unit
TerminalNoRetry (some r) = NoRetry r

storage_settled-Retries :
    (attempt : ℕ) (terminal : Option JobResult) (desk : Desk)
    → TerminalNoRetry terminal
    → Retries attempt (storage_settled attempt (ltb attempt retries) terminal desk).0
storage_settled-Retries attempt (some r) desk h = NoRetry-Retries attempt r h
storage_settled-Retries attempt none desk h = elim (Bool-cases (ltb attempt 3)) [
  | inl e ↦ rw e (ground arith, refl)
  | inr e ↦ rw e tt
]

abbrev pub BeginNoRetry : Begun → Type 0
BeginNoRetry (Begun.finished r) = NoRetry r
BeginNoRetry (Begun.working work) = Unit

module _ (document_id task_id now : ℕ) (desk : Desk) where
  storage_NoRetry :
      (again : Bool) → TerminalNoRetry (record_storage_failure document_id task_id again now desk).0
  unfolding record_storage_failure
  storage_NoRetry again = elim (Locked-cases task_id document_id desk) [
    | inl e ↦ rw (e, record_storage_failure) tt
    | inr (inl (t, d, e, held)) ↦ rw (e, record_storage_failure) tt
    | inr (inr (t, d, e, held)) ↦ rw (e, record_storage_failure) tt
  ]

  parse_NoRetry :
      (code : ErrorCode) → NoRetry (record_parse_failure document_id task_id code now desk).0
  unfolding record_parse_failure
  parse_NoRetry code = elim (Locked-cases task_id document_id desk) [
    | inl e ↦ rw (e, record_parse_failure) tt
    | inr (inl (t, d, e, held)) ↦ rw (e, record_parse_failure) tt
    | inr (inr (t, d, e, held)) ↦ rw (e, record_parse_failure) tt
  ]

  complete_NoRetry :
      (models : List Chunk) (payload : Json)
      → NoRetry (complete_processing document_id task_id now models payload desk).0
  unfolding complete_processing
  complete_NoRetry models payload = elim (Locked-cases task_id document_id desk) [
    | inl e ↦ rw (e, complete_processing) tt
    | inr (inl (t, d, e, held)) ↦ rw (e, complete_processing) tt
    | inr (inr (t, d, e, held)) ↦ elim (Bool-cases (is_completed d.status)) [
      | inl c ↦ rw (e, complete_processing, c) tt
      | inr c ↦ rw (e, complete_processing, c) tt
    ]
  ]

module _ (p : Pipeline) (sc : Schedule) (document_id task_id : ℕ) where
  fail_stage-Retries :
      (attempt : ℕ) (desk : Desk)
      → Retries attempt (fail_stage p sc document_id task_id attempt desk).0
  unfolding fail_stage
  fail_stage-Retries attempt desk = elim (Bool-cases sc.failure_ok) [
    | inl e ↦ rw e (settled-Retries attempt _ _)
    | inr e ↦ rw e tt
  ]

  fail_storage-Retries :
      (attempt : ℕ) (desk : Desk)
      → Retries attempt (fail_storage p sc document_id task_id attempt desk).0
  unfolding fail_storage
  fail_storage-Retries attempt desk = elim (Bool-cases sc.failure_ok) [
    | inl e ↦ rw e (
        storage_settled-Retries attempt _ _
          (storage_NoRetry document_id task_id sc.ended desk (ltb attempt retries)))
    | inr e ↦ rw e tt
  ]

  fail_parse-Retries :
      (attempt : ℕ) (code : ErrorCode) (desk : Desk)
      → Retries attempt (fail_parse p sc document_id task_id code desk).0
  unfolding fail_parse
  fail_parse-Retries attempt code desk = elim (Bool-cases sc.failure_ok) [
    | inl e ↦ rw e (NoRetry-Retries attempt _ (parse_NoRetry document_id task_id sc.ended _ code))
    | inr e ↦ rw e tt
  ]

  after_derive-Retries :
      (attempt : ℕ) (derived : Attempt (List Chunk × Json)) (desk : Desk)
      → Retries attempt (after_derive p sc document_id task_id attempt derived desk).0
  unfolding after_derive persist
  after_derive-Retries attempt (value (models, payload)) desk = elim (Bool-cases sc.commit_ok) [
    | inl e ↦ rw e (
        NoRetry-Retries attempt _
          (complete_NoRetry document_id task_id sc.ended desk models payload))
    | inr e ↦ rw e (fail_stage-Retries attempt _)
  ]
  after_derive-Retries attempt (parse_error code) desk = fail_parse-Retries attempt code desk
  after_derive-Retries attempt exception desk = fail_stage-Retries attempt _

  after_parse-Retries :
      (work : Work) (parsed : Attempt (List ParsedPage)) (desk : Desk)
      → Retries work.attempt (after_parse p sc document_id task_id work parsed desk).0
  unfolding after_parse
  after_parse-Retries work (value pages) desk = after_derive-Retries work.attempt _ desk
  after_parse-Retries work (parse_error code) desk = fail_parse-Retries work.attempt code desk
  after_parse-Retries work exception desk = tt

  pub after_read-Retries :
      (work : Work) (raw_data : Option Bytes) (desk : Desk)
      → Retries work.attempt (after_read p sc document_id task_id work raw_data desk).0
  unfolding after_read
  after_read-Retries work none desk = fail_storage-Retries work.attempt desk
  after_read-Retries work (some raw_data) desk = after_parse-Retries work _ desk

begin_NoRetry :
    (document_id task_id now : ℕ) (desk : Desk)
    → BeginNoRetry (begin_processing document_id task_id now desk).0
unfolding begin_processing
begin_NoRetry document_id task_id now desk = elim (Locked-cases task_id document_id desk) [
  | inl e ↦ rw (e, begin_processing) tt
  | inr (inl (t, d, e, held)) ↦ rw (e, begin_processing) tt
  | inr (inr (t, d, e, held)) ↦ elim (Bool-cases (is_completed d.status)) [
    | inl c ↦ rw (e, begin_processing, c) tt
    | inr c ↦ rw (e, begin_processing, c) tt
  ]
]

-- The result of a run, given how it began: only a run that got to work may ask for a retry.
abbrev pub RetriesOf : Begun → JobResult → Type 0
RetriesOf (Begun.finished r) r' = NoRetry r'
RetriesOf (Begun.working work) r' = Retries work.attempt r'

pub process_document-RetriesOf :
    (p : Pipeline) (sc : Schedule) (document_id task_id : ℕ) (desk : Desk)
    → RetriesOf
        (begin_processing document_id task_id sc.started desk).0
        (process_document p sc document_id task_id desk).0
unfolding process_document
process_document-RetriesOf p sc document_id task_id desk = elim (Bool-cases sc.begin_ok) [
  | inl e ↦ rw e (
      go (begin_processing document_id task_id sc.started desk)
        (begin_NoRetry document_id task_id sc.started desk))
  | inr e ↦ rw e (unbegun (begin_processing document_id task_id sc.started desk).0)
]
  where
    unbegun : (begun : Begun) → RetriesOf begun JobResult.raised
    unbegun (Begun.finished r) = tt
    unbegun (Begun.working work) = tt

    go :
        (begun : Begun × Desk)
        → BeginNoRetry begun.0
        → RetriesOf begun.0 (after_begin p sc document_id task_id begun).0
    go (Begun.finished r, desk') h = unfold after_begin in h
    go (Begun.working work, desk') h =
        unfold after_begin in after_read-Retries p sc document_id task_id work _ _
