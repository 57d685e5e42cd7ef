-- ===== src/Worker/Settled.antt =====
-- jobs.py: how a run of `process_document` may end, up to what it does with the pages.
use evidencedesk.Prelude.{
  ℕ, ◌≤◌, ◌≡◌, ◌⊎◌, refl, Bool, true, false, List, length, ltb, if◌then◌else◌, Bool-cases, inl, inr,
}
use evidencedesk.Json.{Json}
use evidencedesk.Db.{Chunk, Desk, ErrorCode, Metric}
use evidencedesk.Db.Rows.{count_metric}
use evidencedesk.Processing.{Attempt, value, parse_error, exception}
use evidencedesk.Processing.Pdf.{Fate, is_broken}
use evidencedesk.Worker.Transactions.{
  JobResult, is_completed, record_storage_failure, record_parse_failure, record_processing_failure,
  complete_processing,
}
use evidencedesk.Worker.Stages.{Pipeline}
use evidencedesk.Worker.Run.{
  Schedule, retries, settled, fail_stage, fail_storage, fail_parse, persist, after_derive,
}
use evidencedesk.Worker.Locking.{Locked-cases}
use evidencedesk.Worker.Derived.{Ensures}

-- What makes an exception leave a run: the first transaction does not commit, the one that records a
-- failure does not, or the parent has no handler for what becomes of the child that parses a PDF file.
abbrev pub Breaks : Fate → Schedule → Type 0
Breaks fate sc = (sc.begin_ok ≡ false) ⊎ ((sc.failure_ok ≡ false) ⊎ (is_broken fate ≡ true))

-- An exception left the run only for one of these causes, and a run that completed has no more chunks
-- than allowed.
abbrev pub IsSettled : Fate → Schedule → ℕ → JobResult → Type 0
IsSettled fate sc max_chunks JobResult.raised = Breaks fate sc
IsSettled fate sc max_chunks (JobResult.completed n) = n ≤ max_chunks
IsSettled fate sc max_chunks _ = Unit

-- The same of a transaction that completes nothing
abbrev IsFailure : JobResult → Type 0
IsFailure JobResult.raised = ⊥
IsFailure (JobResult.completed n) = ⊥
IsFailure _ = Unit

IsFailure-IsSettled :
    (fate : Fate) (sc : Schedule) (max_chunks : ℕ) (r : JobResult)
    → IsFailure r
    → IsSettled fate sc max_chunks r
IsFailure-IsSettled fate sc max_chunks JobResult.raised h = absurd h
IsFailure-IsSettled fate sc max_chunks (JobResult.completed n) h = absurd h
IsFailure-IsSettled fate sc max_chunks JobResult.missing h = tt
IsFailure-IsSettled fate sc max_chunks JobResult.deleted h = tt
IsFailure-IsSettled fate sc max_chunks (JobResult.already_completed n) h = tt
IsFailure-IsSettled fate sc max_chunks (JobResult.failed code) h = tt
IsFailure-IsSettled fate sc max_chunks (JobResult.retry n) h = tt

settled-IsFailure :
    (attempt : ℕ) (again : Bool) (r : JobResult) (desk : Desk)
    → IsFailure (settled attempt again r desk).0
settled-IsFailure attempt again JobResult.missing desk = tt
settled-IsFailure attempt again JobResult.deleted desk = tt
settled-IsFailure attempt true JobResult.raised desk = tt
settled-IsFailure attempt false JobResult.raised desk = tt
settled-IsFailure attempt true (JobResult.completed n) desk = tt
settled-IsFailure attempt false (JobResult.completed n) desk = tt
settled-IsFailure attempt true (JobResult.already_completed n) desk = tt
settled-IsFailure attempt false (JobResult.already_completed n) desk = tt
settled-IsFailure attempt true (JobResult.failed code) desk = tt
settled-IsFailure attempt false (JobResult.failed code) desk = tt
settled-IsFailure attempt true (JobResult.retry n) desk = tt
settled-IsFailure attempt false (JobResult.retry n) desk = tt

abbrev pub IsSmall : ℕ → List Chunk × Json → Type 0
IsSmall max_chunks (models, payload) = length models ≤ max_chunks

module _ (fate : Fate) (max_chunks : ℕ) (p : Pipeline) (sc : Schedule)
    (document_id task_id : ℕ) where
  pub unless_IsSettled :
      (ok : Bool) (desk : Desk) (end : JobResult × Desk)
      → (ok ≡ false → Breaks fate sc)
      → IsSettled fate sc max_chunks end.0
      → IsSettled fate sc max_chunks (if ok then end else (JobResult.raised, desk)).0
  unless_IsSettled true desk end breaks h = h
  unless_IsSettled false desk end breaks h = breaks refl

  pub fail_stage-IsSettled :
      (attempt : ℕ) (desk : Desk)
      → IsSettled fate sc max_chunks (fail_stage p sc document_id task_id attempt desk).0
  unfolding fail_stage
  fail_stage-IsSettled attempt desk =
      let (failure, desk') =
        record_processing_failure document_id task_id (ltb attempt retries) sc.ended desk in
      unless_IsSettled sc.failure_ok desk _ (λ e. inr (inl e))
        (IsFailure-IsSettled fate sc max_chunks _
          (settled-IsFailure attempt (ltb attempt retries) failure desk'))

  either_IsSettled :
      (ok : Bool) (end end' : JobResult × Desk)
      → IsSettled fate sc max_chunks end.0
      → IsSettled fate sc max_chunks end'.0
      → IsSettled fate sc max_chunks (if ok then end else end').0
  either_IsSettled true end end' h h' = h
  either_IsSettled false end end' h h' = h'

  pub fail_storage-IsSettled :
      (attempt : ℕ) (desk : Desk)
      → IsSettled fate sc max_chunks (fail_storage p sc document_id task_id attempt desk).0
  unfolding fail_storage record_storage_failure
  fail_storage-IsSettled attempt desk =
      unless_IsSettled sc.failure_ok desk _ (λ e. inr (inl e))
        (elim (Locked-cases task_id document_id desk) [
          | inl e ↦ rw (e, record_storage_failure) tt
          | inr (inl (t, d, e, h)) ↦ rw (e, record_storage_failure) tt
          | inr (inr (t, d, e, h)) ↦ elim (Bool-cases (ltb attempt retries)) [
            | inl c ↦ rw (e, record_storage_failure, c) tt
            | inr c ↦ rw (e, record_storage_failure, c) tt
          ]
        ])

  pub fail_parse-IsSettled :
      (code : ErrorCode) (desk : Desk)
      → IsSettled fate sc max_chunks (fail_parse p sc document_id task_id code desk).0
  unfolding fail_parse record_parse_failure
  fail_parse-IsSettled code desk =
      unless_IsSettled sc.failure_ok _ _ (λ e. inr (inl e))
        (elim (Locked-cases task_id document_id (count_metric Metric.failed desk)) [
          | inl e ↦ rw (e, record_parse_failure) tt
          | inr (inl (t, d, e, h)) ↦ rw (e, record_parse_failure) tt
          | inr (inr (t, d, e, h)) ↦ rw (e, record_parse_failure) tt
        ])

  complete-IsSettled :
      (models : List Chunk) (payload : Json) (desk : Desk)
      → length models ≤ max_chunks
      → IsSettled fate sc max_chunks
          (complete_processing document_id task_id sc.ended models payload desk).0
  unfolding complete_processing
  complete-IsSettled models payload desk few = elim (Locked-cases task_id document_id desk) [
    | inl e ↦ rw (e, complete_processing) tt
    | inr (inl (t, d, e, h)) ↦ rw (e, complete_processing) tt
    | inr (inr (t, d, e, h)) ↦ elim (Bool-cases (is_completed d.status)) [
      | inl c ↦ rw (e, complete_processing, c) tt
      | inr c ↦ rw (e, complete_processing, c) few
    ]
  ]

  pub after_derive-IsSettled :
      (attempt : ℕ) (derived : Attempt (List Chunk × Json)) (desk : Desk)
      → Ensures (IsSmall max_chunks) derived
      → IsSettled fate sc max_chunks (after_derive p sc document_id task_id attempt derived desk).0
  unfolding after_derive persist
  after_derive-IsSettled attempt (value (models, payload)) desk few =
      either_IsSettled sc.commit_ok _ _ (complete-IsSettled models payload desk few)
        (fail_stage-IsSettled attempt (sc.before_failure desk))
  after_derive-IsSettled attempt (parse_error code) desk few = fail_parse-IsSettled code desk
  after_derive-IsSettled attempt exception desk few = fail_stage-IsSettled attempt _
