-- ===== src/Worker/Tries.antt =====
-- jobs.py: `task.attempts` only grows, so retries end. The worker is run again after each `Retry`, at
-- most `max_tries = 3` times (apps/worker/evidencedesk_worker/main.py, `WorkerSettings`).
use evidencedesk.Prelude.{
  ℕ, suc, ◌+◌, ◌≤◌, ◌≡◌, refl, Bool, true, false, some, List, arith, Bool-cases, inl, inr,
}
use evidencedesk.Json.{Json}
use evidencedesk.Db.{Chunk, Desk, ErrorCode, ProcessingTask, Document}
use evidencedesk.Db.Rows.{find_task, save_task, find_task-save_task}
use evidencedesk.Worker.Transactions.{
  Begun, begin_processing, record_storage_failure, record_parse_failure, record_processing_failure,
  complete_processing, cancel_deleted_document, already_cancelled, is_completed, failed_task,
  record_failure, finished_task, begun_task,
}
use evidencedesk.Worker.Locking.{IsHeld, Locked-cases, held_task_id}

-- The task has been tried `n` times or more.
abbrev pub TriedAtLeast : ℕ → ℕ → Desk → Type 0
TriedAtLeast n task_id desk =
    (t : ProcessingTask) → find_task task_id desk.tasks ≡ some t → n ≤ t.attempts

module _ (n document_id task_id now : ℕ) (desk : Desk) (tried : TriedAtLeast n task_id desk) where
  -- a row written for the held task that was tried no less often
  written-TriedAtLeast :
      {gone : Bool} (t : ProcessingTask) (d : Document)
      → IsHeld task_id document_id desk gone t d
      → (m : ℕ) (t' : ProcessingTask) → t'.id ≡ t.id
      → m ≤ t'.attempts
      → (u : ProcessingTask) → find_task task_id (save_task t' desk.tasks) ≡ some u
      → m ≤ u.attempts
  written-TriedAtLeast t d held m t' same more u found = ground (
    arith,
    find_task-save_task task_id t' desk.tasks,
    held_task_id task_id document_id desk t d held,
    held.task_row,
  )

  cancel-TriedAtLeast :
      (t : ProcessingTask) (d : Document)
      → IsHeld task_id document_id desk true t d
      → TriedAtLeast n task_id (cancel_deleted_document now t d desk)
  unfolding cancel_deleted_document
  cancel-TriedAtLeast t d held = elim (Bool-cases (already_cancelled t.status t.error_code)) [
    | inl e ↦ rw e (written-TriedAtLeast t d held n _ refl (tried t held.task_row))
    | inr e ↦ rw e (written-TriedAtLeast t d held n _ refl (tried t held.task_row))
  ]

  failure-TriedAtLeast :
      (t : ProcessingTask) (d : Document) (again : Bool) (code : ErrorCode)
      → IsHeld task_id document_id desk false t d
      → TriedAtLeast n task_id (record_failure document_id again code now t d desk)
  failure-TriedAtLeast t d true code held =
      written-TriedAtLeast t d held n (failed_task true code now t) refl (tried t held.task_row)
  failure-TriedAtLeast t d false code held =
      written-TriedAtLeast t d held n (failed_task false code now t) refl (tried t held.task_row)

  pub storage-TriedAtLeast :
      (again : Bool)
      → TriedAtLeast n task_id (record_storage_failure document_id task_id again now desk).1
  unfolding record_storage_failure
  storage-TriedAtLeast again = elim (Locked-cases task_id document_id desk) [
    | inl e ↦ rw (e, record_storage_failure) tried
    | inr (inl (t, d, e, held)) ↦ rw (e, record_storage_failure) (cancel-TriedAtLeast t d held)
    | inr (inr (t, d, e, held)) ↦
        rw (e, record_storage_failure) (failure-TriedAtLeast t d again _ held)
  ]

  pub parse-TriedAtLeast :
      (code : ErrorCode)
      → TriedAtLeast n task_id (record_parse_failure document_id task_id code now desk).1
  unfolding record_parse_failure
  parse-TriedAtLeast code = elim (Locked-cases task_id document_id desk) [
    | inl e ↦ rw (e, record_parse_failure) tried
    | inr (inl (t, d, e, held)) ↦ rw (e, record_parse_failure) (cancel-TriedAtLeast t d held)
    | inr (inr (t, d, e, held)) ↦
        rw (e, record_parse_failure) (failure-TriedAtLeast t d false code held)
  ]

  pub processing-TriedAtLeast :
      (again : Bool)
      → TriedAtLeast n task_id (record_processing_failure document_id task_id again now desk).1
  unfolding record_processing_failure
  processing-TriedAtLeast again = elim (Locked-cases task_id document_id desk) [
    | inl e ↦ rw (e, record_processing_failure) tried
    | inr (inl (t, d, e, held)) ↦ rw (e, record_processing_failure) (cancel-TriedAtLeast t d held)
    | inr (inr (t, d, e, held)) ↦
        rw (e, record_processing_failure) (failure-TriedAtLeast t d again _ held)
  ]

  pub complete-TriedAtLeast :
      (models : List Chunk) (payload : Json)
      → TriedAtLeast n task_id (complete_processing document_id task_id now models payload desk).1
  unfolding complete_processing
  complete-TriedAtLeast models payload = elim (Locked-cases task_id document_id desk) [
    | inl e ↦ rw (e, complete_processing) tried
    | inr (inl (t, d, e, held)) ↦ rw (e, complete_processing) (cancel-TriedAtLeast t d held)
    | inr (inr (t, d, e, held)) ↦ elim (Bool-cases (is_completed d.status)) [
      | inl c ↦ rw (e, complete_processing, c) tried
      | inr c ↦
          rw (e, complete_processing, c)
            (written-TriedAtLeast t d held n (finished_task now t) refl (tried t held.task_row))
    ]
  ]

  -- A run that gets to work is one attempt more.
  abbrev pub BegunTries : Begun × Desk → Type 0
  BegunTries (Begun.finished r, desk') = TriedAtLeast n task_id desk'
  BegunTries (Begun.working work, desk') =
      (suc n ≤ work.attempt) × TriedAtLeast (suc n) task_id desk'

  pub begin-BegunTries : BegunTries (begin_processing document_id task_id now desk)
  unfolding begin_processing
  begin-BegunTries = elim (Locked-cases task_id document_id desk) [
    | inl e ↦ rw (e, begin_processing) tried
    | inr (inl (t, d, e, held)) ↦ rw (e, begin_processing) (cancel-TriedAtLeast t d held)
    | inr (inr (t, d, e, held)) ↦ elim (Bool-cases (is_completed d.status)) [
      | inl c ↦ rw (e, begin_processing, c) tried
      | inr c ↦
          let more : suc n ≤ t.attempts + 1 = omega (arith, tried t held.task_row) in
          rw (e, begin_processing, c)
            (more, written-TriedAtLeast t d held (suc n) (begun_task now t) refl more)
    ]
  ]
