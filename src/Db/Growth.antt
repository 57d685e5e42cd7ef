-- ===== src/Db/Growth.antt =====
-- The tables stay sound when a document without a task is written, and when a new document and its
-- task are added (main.py, `delete_document` and `upload_document`).
use evidencedesk.Prelude.{
  ℕ, ◌≡◌, ◌≢◌, ◌⊎◌, sym, ◌∙◌, ap, inl, inr, false, none, some, List, [], ◌∷◌, arith, is_some,
}
use evidencedesk.Db.{Document, ProcessingTask, Chunk, Extraction}
use evidencedesk.Db.Table.{find}
use evidencedesk.Db.Rows.{
  find_document, find_task, save_document, find_document-save_document, chunks_of, extractions_of,
}
use evidencedesk.Db.Sound.{SoundRows, Mirrors, status_is_deleted}

module _ {documents : List Document} {tasks : List ProcessingTask} {chunks : List Chunk}
    {extractions : List Extraction} (s : SoundRows documents tasks chunks extractions) where
  module _ (document document' : Document)
      (found : find_document document.id documents ≡ some document)
      (same : document'.id ≡ document.id)
      (free : (i : ℕ) (t : ProcessingTask)
        → find_task i tasks ≡ some t
        → t.document_id ≢ document.id) where
    after :
        (k : ℕ) (d : Document)
        → find_document k (save_document document' documents) ≡ some d
        → ((k ≡ document.id) × (d ≡ document'))
          ⊎ ((k ≢ document.id) × (find_document k documents ≡ some d))
    after k d h = ground (arith, find_document-save_document k document' documents)

    pub document_rewritten-SoundRows :
        (chunks' : List Chunk) (extractions' : List Extraction)
        → is_some document'.deleted_at ≡ status_is_deleted document'.status
        → ((k : ℕ)
            → k ≢ document.id
            → (chunks_of k chunks' ≡ chunks_of k chunks)
              × (extractions_of k extractions' ≡ extractions_of k extractions))
        → (chunks_of document.id chunks' ≡ [])
        → (extractions_of document.id extractions' ≡ [])
        → SoundRows (save_document document' documents) tasks chunks' extractions'
    document_rewritten-SoundRows chunks' extractions' mark others no_chunks no_extractions =
        record {
          marked = λ k d h. elim (after k d h) [ inl e ↦ rw e.1 mark | inr e ↦ s.marked k d e.1 ];
          mirrored = λ i t d ht hd. elim (after t.document_id d hd) [
            | inl e ↦ absurd (free i t ht e.0)
            | inr e ↦ s.mirrored i t d ht e.1
          ];
          unique = s.unique;
          distinct = s.distinct;
          emptied = λ k d h gone. elim (after k d h) [
            | inl e ↦ rw e.0 (no_chunks, no_extractions)
            | inr e ↦
                let (same_chunks, same_extractions) = others k e.0 in
                let (none_left, none_left') = s.emptied k d e.1 gone in
                (same_chunks ∙ none_left, same_extractions ∙ none_left')
          ];
        }

  module _ (document : Document) (task : ProcessingTask)
      (new_document : find_document document.id documents ≡ none)
      (new_task : find_task task.id tasks ≡ none)
      (free : (i : ℕ) (t : ProcessingTask)
        → find_task i tasks ≡ some t
        → t.document_id ≢ document.id)
      (owned : task.document_id ≡ document.id) where
    document_added :
        (k : ℕ) (d : Document)
        → find_document k (document ∷ documents) ≡ some d
        → ((k ≡ document.id) × (d ≡ document)) ⊎ (find_document k documents ≡ some d)
    unfolding find_document find
    document_added k d h = ground arith

    task_added :
        (i : ℕ) (t : ProcessingTask)
        → find_task i (task ∷ tasks) ≡ some t
        → ((i ≡ task.id) × (t ≡ task)) ⊎ (find_task i tasks ≡ some t)
    unfolding find_task find
    task_added i t h = ground arith

    unique_added :
        (i j : ℕ) (t u : ProcessingTask)
        → find_task i (task ∷ tasks) ≡ some t
        → find_task j (task ∷ tasks) ≡ some u
        → t.document_id ≡ u.document_id
        → i ≡ j
    unique_added i j t u ht hu same = elim (task_added i t ht) [
      | inl e ↦ elim (task_added j u hu) [
        | inl f ↦ e.0 ∙ sym f.0
        | inr f ↦
            absurd (free j u f (sym same ∙ ap (λ (x : ProcessingTask). x.document_id) e.1 ∙ owned))
      ]
      | inr e ↦ elim (task_added j u hu) [
        | inl f ↦
            absurd (free i t e (same ∙ ap (λ (x : ProcessingTask). x.document_id) f.1 ∙ owned))
        | inr f ↦ s.unique i j t u e f same
      ]
    ]

    pub inserted-SoundRows :
        Mirrors task document
        → is_some document.deleted_at ≡ false
        → status_is_deleted document.status ≡ false
        → SoundRows (document ∷ documents) (task ∷ tasks) chunks extractions
    inserted-SoundRows m alive live = record {
      marked = λ k d h. elim (document_added k d h) [
        | inl e ↦ rw e.1 (alive ∙ sym live)
        | inr e ↦ s.marked k d e
      ];
      mirrored = λ i t d ht hd. elim (task_added i t ht) [
        | inl e ↦ elim (document_added t.document_id d hd) [
          | inl f ↦ rw (e.1, f.1) m
          | inr f ↦
              let at : find_document document.id documents ≡ some d =
                ap (λ k. find_document k documents)
                  (sym (ap (λ (x : ProcessingTask). x.document_id) e.1 ∙ owned))
                ∙ f in
              cc
        ]
        | inr e ↦ elim (document_added t.document_id d hd) [
          | inl f ↦ absurd (free i t e f.0)
          | inr f ↦ s.mirrored i t d e f
        ]
      ];
      unique = unique_added;
      distinct = (unfold find_task in new_task, s.distinct);
      emptied =
          λ k d h gone. elim (document_added k d h) [ inl e ↦ cc | inr e ↦ s.emptied k d e gone ];
    }
