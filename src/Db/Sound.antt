-- ===== src/Db/Sound.antt =====
-- The invariant of the shared tables: what the API and the worker together keep true of the rows of
-- documents, tasks, chunks and extractions (models.py, jobs.py, main.py).
use evidencedesk.Prelude.{
  ℕ, ◌≡◌, ◌≢◌, refl, sym, ◌∙◌, ap, inl, inr, Bool, true, false, some, List, [], ◌⊎◌, arith, is_some,
}
use evidencedesk.Db.{Document, DocumentStatus, ProcessingTask, TaskStatus, Chunk, Extraction, Desk}
use evidencedesk.Db.Rows.{
  DistinctTasks, DistinctTasks-save_task, find_document, find_task, save_document, save_task,
  find_document-save_document, find_task-save_task, chunks_of, extractions_of,
}

-- The states that a task may be in, given that of its document.
abbrev pub agrees : DocumentStatus → TaskStatus → Bool
agrees DocumentStatus.queued TaskStatus.queued = true
agrees DocumentStatus.processing TaskStatus.processing = true
agrees DocumentStatus.completed TaskStatus.completed = true
agrees DocumentStatus.failed TaskStatus.failed = true
agrees DocumentStatus.deleted TaskStatus.completed = true
agrees DocumentStatus.deleted TaskStatus.failed = true
agrees _ _ = false

abbrev pub status_is_deleted : DocumentStatus → Bool
status_is_deleted DocumentStatus.deleted = true
status_is_deleted _ = false

-- A task mirrors its document: their states agree and, unless the document is deleted, so do their
-- error codes.
pub record Mirrors (t : ProcessingTask) (d : Document) : Type 0 where
  pub states : agrees d.status t.status ≡ true
  pub codes : status_is_deleted d.status ≡ false → t.error_code ≡ d.error_code

pub record SoundRows (documents : List Document) (tasks : List ProcessingTask) (chunks : List Chunk)
    (extractions : List Extraction) : Type 0 where
  -- the status DELETED and the time of deletion go together
  pub marked :
      (k : ℕ) (d : Document)
      → find_document k documents ≡ some d
      → is_some d.deleted_at ≡ status_is_deleted d.status
  -- every task mirrors its document
  pub mirrored :
      (i : ℕ) (t : ProcessingTask) (d : Document)
      → find_task i tasks ≡ some t
      → find_document t.document_id documents ≡ some d
      → Mirrors t d
  -- a document has one task
  pub unique :
      (i j : ℕ) (t u : ProcessingTask)
      → find_task i tasks ≡ some t
      → find_task j tasks ≡ some u
      → t.document_id ≡ u.document_id
      → i ≡ j
  -- no two tasks have one identifier
  pub distinct : DistinctTasks tasks
  -- nothing that was derived from a deleted document is left
  pub emptied :
      (k : ℕ) (d : Document)
      → find_document k documents ≡ some d
      → status_is_deleted d.status ≡ true
      → (chunks_of k chunks ≡ []) × (extractions_of k extractions ≡ [])

abbrev pub IsSound : Desk → Type 0
IsSound desk = SoundRows desk.documents desk.tasks desk.chunks desk.extractions

pub Option-some-injective {ℓ} : {A : Type ℓ} {a b : A} → some a ≡ some b → a ≡ b
Option-some-injective h = cc

module _ {documents : List Document} {tasks : List ProcessingTask} {chunks : List Chunk}
    {extractions : List Extraction} (s : SoundRows documents tasks chunks extractions)
    (task task' : ProcessingTask) (document document' : Document)
    (found_task : find_task task.id tasks ≡ some task)
    (found_document : find_document document.id documents ≡ some document)
    (owned : task.document_id ≡ document.id) (same_task : task'.id ≡ task.id)
    (same_owner : task'.document_id ≡ task.document_id)
    (same_document : document'.id ≡ document.id) where
  task_after :
      (i : ℕ) (t : ProcessingTask)
      → find_task i (save_task task' tasks) ≡ some t
      → ((i ≡ task.id) × (t ≡ task')) ⊎ ((i ≢ task.id) × (find_task i tasks ≡ some t))
  task_after i t h = ground (arith, find_task-save_task i task' tasks)

  document_after :
      (k : ℕ) (d : Document)
      → find_document k (save_document document' documents) ≡ some d
      → ((k ≡ document.id) × (d ≡ document'))
        ⊎ ((k ≢ document.id) × (find_document k documents ≡ some d))
  document_after k d h = ground (arith, find_document-save_document k document' documents)

  owner_after :
      (i : ℕ) (t : ProcessingTask)
      → find_task i (save_task task' tasks) ≡ some t
      → (u : ProcessingTask) × (find_task i tasks ≡ some u) × (t.document_id ≡ u.document_id)
  owner_after i t h = elim (task_after i t h) [
    | inl e ↦ (task, rw e.0 found_task, ap (λ (x : ProcessingTask). x.document_id) e.1 ∙ same_owner)
    | inr e ↦ (t, e.1, refl)
  ]

  mirrored_after :
      Mirrors task' document'
      → (i : ℕ) (t : ProcessingTask) (d : Document) → find_task i (save_task task' tasks) ≡ some t
      → find_document t.document_id (save_document document' documents) ≡ some d
      → Mirrors t d
  mirrored_after m i t d ht hd = elim (task_after i t ht) [
    | inl e ↦ elim (document_after t.document_id d hd) [
      | inl f ↦ rw (e.1, f.1) m
      | inr f ↦ absurd (f.0 (ap (λ (x : ProcessingTask). x.document_id) e.1 ∙ same_owner ∙ owned))
    ]
    | inr e ↦ elim (document_after t.document_id d hd) [
      | inl f ↦ absurd (e.0 (s.unique i task.id t task e.1 found_task (f.0 ∙ sym owned)))
      | inr f ↦ s.mirrored i t d e.1 f.1
    ]
  ]

  unique_after :
      (i j : ℕ) (t u : ProcessingTask)
      → find_task i (save_task task' tasks) ≡ some t
      → find_task j (save_task task' tasks) ≡ some u
      → t.document_id ≡ u.document_id
      → i ≡ j
  unique_after i j t u ht hu same =
      let (t', pt, et) = owner_after i t ht in
      let (u', pu, eu) = owner_after j u hu in s.unique i j t' u' pt pu (sym et ∙ same ∙ eu)

  -- The rows stay sound when a task and its document are written together.
  pub rewritten-SoundRows :
      (chunks' : List Chunk) (extractions' : List Extraction)
      → Mirrors task' document'
      → is_some document'.deleted_at ≡ status_is_deleted document'.status
      → ((k : ℕ)
          → k ≢ document.id
          → (chunks_of k chunks' ≡ chunks_of k chunks)
            × (extractions_of k extractions' ≡ extractions_of k extractions))
      → (status_is_deleted document'.status ≡ true
          → (chunks_of document.id chunks' ≡ []) × (extractions_of document.id extractions' ≡ []))
      → SoundRows (save_document document' documents) (save_task task' tasks) chunks' extractions'
  rewritten-SoundRows chunks' extractions' m mark others own = record {
    marked =
        λ k d h. elim (document_after k d h) [ inl e ↦ rw e.1 mark | inr e ↦ s.marked k d e.1 ];
    mirrored = mirrored_after m;
    unique = unique_after;
    distinct = DistinctTasks-save_task task' tasks s.distinct;
    emptied = λ k d h gone. elim (document_after k d h) [
      | inl e ↦ rw e.0 (own (rw e.1 at gone))
      | inr e ↦
          let (same_chunks, same_extractions) = others k e.0 in
          let (no_chunks, no_extractions) = s.emptied k d e.1 gone in
          (same_chunks ∙ no_chunks, same_extractions ∙ no_extractions)
    ];
  }

  -- The same where only the task is written.
  pub task_rewritten-SoundRows :
      Mirrors task' document → SoundRows documents (save_task task' tasks) chunks extractions
  task_rewritten-SoundRows m = record {
    marked = s.marked;
    mirrored = λ i t d ht hd. elim (task_after i t ht) [
      | inl e ↦
          let at : find_document t.document_id documents ≡ some document =
            ap (λ k. find_document k documents)
              (ap (λ (x : ProcessingTask). x.document_id) e.1 ∙ same_owner ∙ owned)
            ∙ found_document in
          rw (e.1, Option-some-injective (sym hd ∙ at)) m
      | inr e ↦ s.mirrored i t d e.1 hd
    ];
    unique = unique_after;
    distinct = DistinctTasks-save_task task' tasks s.distinct;
    emptied = s.emptied;
  }
