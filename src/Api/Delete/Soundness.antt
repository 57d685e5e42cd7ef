-- ===== src/Api/Delete/Soundness.antt =====
-- main.py: a deletion keeps the tables sound and takes all that was derived from the document.
use evidencedesk.Prelude.{
  ℕ, ◌≡◌, ◌≢◌, refl, sym, ◌∙◌, ap, inl, inr, Bool, true, Option, none, some, [], arith, is_some,
  Bool-cases, Option-cases,
}
use evidencedesk.Auth.{UserPrincipal}
use evidencedesk.Db.{Document, ProcessingTask, Desk}
use evidencedesk.Db.Rows.{
  find_document, find_task_of, save_document, delete_chunks, delete_extractions, chunks_of,
  extractions_of, chunks_of-delete_chunks, extractions_of-delete_extractions,
  find_task-find_task_of, find_task_of-none, id-find_document, find_document-save_document,
}
use evidencedesk.Db.Sound.{SoundRows, IsSound, Mirrors, rewritten-SoundRows}
use evidencedesk.Db.Growth.{document_rewritten-SoundRows}
use evidencedesk.Storage
use evidencedesk.Storage.{get-delete, same_key_iff}
use evidencedesk.Api.Responses.{Detail, reply, refused}
use evidencedesk.Api.Delete.{stop_task, stopped_task, is_settled, deleted_document, delete_document}

stopped_task-Mirrors :
    (now : ℕ) (t : ProcessingTask) (d : Document)
    → Mirrors (stopped_task now t) (deleted_document now d)
stopped_task-Mirrors now t d = elim (Bool-cases (is_settled t.status)) [
  | inl e ↦ rw e (record { states = ground arith; codes = λ p. cc })
  | inr e ↦ rw e (record { states = refl; codes = λ p. cc })
]

stopped_task_keys :
    (now : ℕ) (t : ProcessingTask)
    → ((stopped_task now t).id ≡ t.id) × ((stopped_task now t).document_id ≡ t.document_id)
stopped_task_keys now t = ground arith

module _ (document_id : ℕ) (desk : Desk) where
  others_kept :
      (k : ℕ)
      → k ≢ document_id
      → (chunks_of k (delete_chunks document_id desk.chunks) ≡ chunks_of k desk.chunks)
        × (extractions_of k (delete_extractions document_id desk.extractions)
            ≡ extractions_of k desk.extractions)
  others_kept k ne = (
    ground (arith, chunks_of-delete_chunks k document_id desk.chunks),
    ground (arith, extractions_of-delete_extractions k document_id desk.extractions),
  )

  own_gone :
      (k : ℕ)
      → k ≡ document_id
      → (chunks_of k (delete_chunks document_id desk.chunks) ≡ [])
        × (extractions_of k (delete_extractions document_id desk.extractions) ≡ [])
  own_gone k e = (
    ground (arith, chunks_of-delete_chunks k document_id desk.chunks),
    ground (arith, extractions_of-delete_extractions k document_id desk.extractions),
  )

  module _ (now : ℕ) (s : IsSound desk) (d : Document)
      (row : find_document document_id desk.documents ≡ some d) where
    key : d.id ≡ document_id
    key = id-find_document document_id desk.documents d row

    held : find_document d.id desk.documents ≡ some d
    held = ap (λ k. find_document k desk.documents) key ∙ row

    removed_rows-SoundRows :
        (found : Option ProcessingTask)
        → find_task_of document_id desk.tasks ≡ found
        → SoundRows
            (save_document (deleted_document now d) desk.documents)
            (stop_task now found desk.tasks)
            (delete_chunks document_id desk.chunks)
            (delete_extractions document_id desk.extractions)
    removed_rows-SoundRows none e =
        document_rewritten-SoundRows s d (deleted_document now d) held refl
          (λ i t ht own. find_task_of-none document_id i desk.tasks t e ht (own ∙ key)) _ _ refl
          (λ k ne. others_kept k (λ f. ne (f ∙ sym key))) (own_gone d.id key).0
          (own_gone d.id key).1
    removed_rows-SoundRows (some t) e =
        let (found, owner) = find_task-find_task_of document_id desk.tasks t s.distinct e in
        let (same_id, same_owner) = stopped_task_keys now t in
        rewritten-SoundRows s t (stopped_task now t) d (deleted_document now d) found held
          (owner ∙ sym key) same_id same_owner refl _ _ (stopped_task-Mirrors now t d) refl
          (λ k ne. others_kept k (λ f. ne (f ∙ sym key))) (λ gone. own_gone d.id key)

module _ (document_id : ℕ) (principal : UserPrincipal) (correlation_id now : ℕ) (desk : Desk) where
  -- Deleting a document, present or not, keeps the tables sound, whether or not its file can be removed.
  pub delete_document-IsSound :
      (disk_ok : Bool)
      → IsSound desk
      → IsSound (delete_document document_id principal correlation_id now disk_ok desk).1
  unfolding delete_document
  delete_document-IsSound disk_ok s =
      elim (Option-cases (find_document document_id desk.documents)) [
        | inl e ↦ rw (e, delete_document) s
        | inr (d, e) ↦ elim (Bool-cases (is_some d.deleted_at)) [
          | inl gone ↦ rw (e, delete_document, gone) s
          | inr live ↦ elim (Bool-cases disk_ok) [
            | inl ok ↦
                rw (e, delete_document, live, ok)
                  (removed_rows-SoundRows document_id desk now s d e
                    (find_task_of document_id desk.tasks) refl)
            | inr broken ↦ rw (e, delete_document, live, broken) s
          ]
        ]
      ]

  pub delete_document_removes :
      (d : Document)
      → find_document document_id desk.documents ≡ some d
      → d.deleted_at ≡ none
      → let (response, desk') =
          delete_document document_id principal correlation_id now true desk in
        (response ≡ reply 204 tt)
        × (find_document document_id desk'.documents ≡ some (deleted_document now d))
        × (chunks_of document_id desk'.chunks ≡ [])
        × (extractions_of document_id desk'.extractions ≡ [])
        × (Storage.get d.storage_key desk'.files ≡ none)
  unfolding delete_document
  delete_document_removes d e live = (
    ground (arith, e),
    ground (
      arith,
      e,
      id-find_document document_id desk.documents d e,
      find_document-save_document document_id (deleted_document now d) desk.documents,
    ),
    ground (arith, e, chunks_of-delete_chunks document_id document_id desk.chunks),
    ground (arith, e, extractions_of-delete_extractions document_id document_id desk.extractions),
    ground (
      arith,
      e,
      get-delete d.storage_key d.storage_key desk.files,
      same_key_iff d.storage_key d.storage_key,
    ),
  )

  deleted_is_refused :
      (disk_ok : Bool) (d : Document)
      → find_document document_id desk.documents ≡ some d
      → is_some d.deleted_at ≡ true
      → delete_document document_id principal correlation_id now disk_ok desk
        ≡ (refused 404 Detail.document_not_found, desk)
  unfolding delete_document
  deleted_is_refused disk_ok d e gone = rw (e, delete_document, gone)

-- Deleting a document that was just deleted is refused with 404 and changes nothing.
pub delete_document_again :
    (document_id : ℕ) (principal : UserPrincipal) (correlation_id now later : ℕ) (desk : Desk)
    (d : Document) (disk_ok : Bool)
    → find_document document_id desk.documents ≡ some d
    → d.deleted_at ≡ none
    → let desk' = (delete_document document_id principal correlation_id now true desk).1 in
      delete_document document_id principal correlation_id later disk_ok desk'
      ≡ (refused 404 Detail.document_not_found, desk')
delete_document_again document_id principal correlation_id now later desk d disk_ok e live =
    deleted_is_refused document_id principal correlation_id later _ disk_ok (deleted_document now d)
      (delete_document_removes document_id principal correlation_id now desk d e live).1 refl
