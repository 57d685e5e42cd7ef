-- ===== src/Worker/Soundness.antt =====
-- jobs.py: every transaction of the worker keeps the tables sound.
use evidencedesk.Prelude.{
  ℕ, ◌≡◌, ◌≢◌, refl, sym, ◌∙◌, ap, inl, inr, Bool, true, false, some, List, [], ◌∷◌, ◌++◌, arith,
  Bool-cases, All, is_some,
}
use evidencedesk.Json.{Json}
use evidencedesk.Db.{Document, ProcessingTask, TaskStatus, ErrorCode, Chunk, Extraction, Desk}
use evidencedesk.Db.Rows.{
  find_document, chunks_of, extractions_of, delete_chunks, delete_extractions, chunks_of_replaced,
  extractions_of_replaced, save_document, save_task,
}
use evidencedesk.Db.Sound.{
  SoundRows, IsSound, Mirrors, status_is_deleted, rewritten-SoundRows, task_rewritten-SoundRows,
}
use evidencedesk.Worker.Transactions.{
  cancel_deleted_document, record_failure, record_storage_failure, record_parse_failure,
  record_processing_failure, begin_processing, complete_processing, failed_task, failed_document,
  begun_task, begun_document, finished_task, finished_document, already_cancelled, finish,
  is_completed,
}
use evidencedesk.Worker.Locking.{
  IsHeld, Locked-cases, held_document_id, held_task, held_document, held_owned, is_deleted-IsSound,
}

module _ (task_id document_id : ℕ) (desk : Desk) (s : IsSound desk) (t : ProcessingTask)
    (d : Document) where
  held-Mirrors : {gone : Bool} → IsHeld task_id document_id desk gone t d → Mirrors t d
  held-Mirrors h =
      s.mirrored task_id t d h.task_row
        (ap (λ k. find_document k desk.documents) h.owned ∙ h.document_row)

  -- Writing both rows, with chunks and extractions of this document alone changed.
  held_rewrite :
      {gone : Bool}
      → IsHeld task_id document_id desk gone t d
      → (t' : ProcessingTask) (d' : Document) (chunks' : List Chunk)
        (extractions' : List Extraction)
      → t'.id ≡ t.id
      → t'.document_id ≡ t.document_id
      → d'.id ≡ d.id
      → Mirrors t' d'
      → is_some d'.deleted_at ≡ false
      → status_is_deleted d'.status ≡ false
      → ((k : ℕ)
          → k ≢ document_id
          → (chunks_of k chunks' ≡ chunks_of k desk.chunks)
            × (extractions_of k extractions' ≡ extractions_of k desk.extractions))
      → SoundRows (save_document d' desk.documents) (save_task t' desk.tasks) chunks' extractions'
  held_rewrite h t' d' chunks' extractions' ti to di m alive live_status others =
      rewritten-SoundRows s t t' d d' (held_task task_id document_id desk t d h)
        (held_document task_id document_id desk t d h) (held_owned task_id document_id desk t d h)
        ti to di chunks' extractions' m (alive ∙ sym live_status)
        (λ k ne. others k (λ e. ne (e ∙ sym (held_document_id task_id document_id desk t d h))))
        (λ e. cc)

  alive : IsHeld task_id document_id desk false t d → is_some d.deleted_at ≡ false
  alive h = ground (arith, h.gone_or_live)

  pub cancel_deleted_document-IsSound :
      (now : ℕ)
      → IsHeld task_id document_id desk true t d
      → IsSound (cancel_deleted_document now t d desk)
  unfolding cancel_deleted_document
  cancel_deleted_document-IsSound now h =
      let gone = is_deleted-IsSound s h in
      let kept =
        task_rewritten-SoundRows s t
          (record t {
            status = TaskStatus.failed;
            error_code = some ErrorCode.document_deleted;
            completed_at = some now;
          })
          d d (held_task task_id document_id desk t d h)
          (held_document task_id document_id desk t d h) (held_owned task_id document_id desk t d h)
          refl refl refl (record { states = ground arith; codes = λ e. cc }) in
      elim (Bool-cases (already_cancelled t.status t.error_code)) [
        | inl e ↦ rw e kept
        | inr e ↦ rw e kept
      ]

  pub record_failure-IsSound :
      (again : Bool) (code : ErrorCode) (now : ℕ)
      → IsHeld task_id document_id desk false t d
      → IsSound (record_failure document_id again code now t d desk)
  record_failure-IsSound true code now h =
      held_rewrite h (failed_task true code now t) (failed_document true code d) desk.chunks
        desk.extractions refl refl refl (record { states = refl; codes = λ e. refl }) (alive h) refl
        (λ k ne. (refl, refl))
  record_failure-IsSound false code now h =
      held_rewrite h (failed_task false code now t) (failed_document false code d) desk.chunks
        desk.extractions refl refl refl (record { states = refl; codes = λ e. refl }) (alive h) refl
        (λ k ne. (refl, refl))

  begun-IsSound :
      (now : ℕ)
      → IsHeld task_id document_id desk false t d
      → IsSound (record desk {
        tasks = save_task (begun_task now t) desk.tasks;
        documents = save_document (begun_document d) desk.documents;
      })
  begun-IsSound now h =
      held_rewrite h (begun_task now t) (begun_document d) desk.chunks desk.extractions refl refl
        refl (record { states = refl; codes = λ e. refl }) (alive h) refl (λ k ne. (refl, refl))

  finish-IsSound :
      (now : ℕ) (models : List Chunk) (payload : Json)
      → All (λ (c : Chunk). c.document_id ≡ document_id) models
      → IsHeld task_id document_id desk false t d
      → IsSound (finish document_id now models payload t d desk)
  finish-IsSound now models payload own h =
      held_rewrite h (finished_task now t) (finished_document now d)
        (delete_chunks document_id desk.chunks ++ models)
        (delete_extractions document_id desk.extractions
          ++ record { document_id = document_id; payload = payload } ∷ [])
        refl refl refl (record { states = refl; codes = λ e. refl }) (alive h) refl
        (λ k ne. (
          ground (arith, chunks_of_replaced document_id k desk.chunks models own),
          ground (
            arith,
            extractions_of_replaced document_id k desk.extractions
                (record { document_id = document_id; payload = payload }) refl,
          ),
        ))

module _ (document_id task_id now : ℕ) (desk : Desk) (s : IsSound desk) where
  pub record_storage_failure-IsSound :
      (again : Bool) → IsSound (record_storage_failure document_id task_id again now desk).1
  unfolding record_storage_failure
  record_storage_failure-IsSound again = elim (Locked-cases task_id document_id desk) [
    | inl e ↦ rw (e, record_storage_failure) s
    | inr (inl (t, d, e, h)) ↦
        rw (e, record_storage_failure)
          (cancel_deleted_document-IsSound task_id document_id desk s t d now h)
    | inr (inr (t, d, e, h)) ↦
        rw (e, record_storage_failure)
          (record_failure-IsSound task_id document_id desk s t d again _ now h)
  ]

  pub record_parse_failure-IsSound :
      (code : ErrorCode) → IsSound (record_parse_failure document_id task_id code now desk).1
  unfolding record_parse_failure
  record_parse_failure-IsSound code = elim (Locked-cases task_id document_id desk) [
    | inl e ↦ rw (e, record_parse_failure) s
    | inr (inl (t, d, e, h)) ↦
        rw (e, record_parse_failure)
          (cancel_deleted_document-IsSound task_id document_id desk s t d now h)
    | inr (inr (t, d, e, h)) ↦
        rw (e, record_parse_failure)
          (record_failure-IsSound task_id document_id desk s t d false code now h)
  ]

  pub record_processing_failure-IsSound :
      (again : Bool) → IsSound (record_processing_failure document_id task_id again now desk).1
  unfolding record_processing_failure
  record_processing_failure-IsSound again = elim (Locked-cases task_id document_id desk) [
    | inl e ↦ rw (e, record_processing_failure) s
    | inr (inl (t, d, e, h)) ↦
        rw (e, record_processing_failure)
          (cancel_deleted_document-IsSound task_id document_id desk s t d now h)
    | inr (inr (t, d, e, h)) ↦
        rw (e, record_processing_failure)
          (record_failure-IsSound task_id document_id desk s t d again _ now h)
  ]

  pub begin_processing-IsSound : IsSound (begin_processing document_id task_id now desk).1
  unfolding begin_processing
  begin_processing-IsSound = elim (Locked-cases task_id document_id desk) [
    | inl e ↦ rw (e, begin_processing) s
    | inr (inl (t, d, e, h)) ↦
        rw (e, begin_processing)
          (cancel_deleted_document-IsSound task_id document_id desk s t d now h)
    | inr (inr (t, d, e, h)) ↦ elim (Bool-cases (is_completed d.status)) [
      | inl c ↦ rw (e, begin_processing, c) s
      | inr c ↦ rw (e, begin_processing, c) (begun-IsSound task_id document_id desk s t d now h)
    ]
  ]

  pub complete_processing-IsSound :
      (models : List Chunk) (payload : Json)
      → All (λ (c : Chunk). c.document_id ≡ document_id) models
      → IsSound (complete_processing document_id task_id now models payload desk).1
  unfolding complete_processing
  complete_processing-IsSound models payload own = elim (Locked-cases task_id document_id desk) [
    | inl e ↦ rw (e, complete_processing) s
    | inr (inl (t, d, e, h)) ↦
        rw (e, complete_processing)
          (cancel_deleted_document-IsSound task_id document_id desk s t d now h)
    | inr (inr (t, d, e, h)) ↦ elim (Bool-cases (is_completed d.status)) [
      | inl c ↦ rw (e, complete_processing, c) s
      | inr c ↦
          rw (e, complete_processing, c)
            (finish-IsSound task_id document_id desk s t d now models payload own h)
    ]
  ]
