-- ===== src/Api/Upload/Soundness.antt =====
-- main.py: an upload keeps the tables sound, whichever way it ends.
use evidencedesk.Prelude.{
  ℕ, ◌≡◌, ◌≢◌, refl, sym, ◌∙◌, ap, inl, inr, Bytes, Option, none, some, List, [], ◌∷◌, arith,
  is_some, Bool, true, false, if◌then◌else◌, Bool-cases, not, ◌&&◌,
}
use evidencedesk.Storage.{put, delete}
use evidencedesk.Uploads.{ValidatedUpload, Verdict}
use evidencedesk.Db.{
  Document, DocumentStatus, ProcessingTask, TaskStatus, ErrorCode, StorageKey, Dossier, Desk,
}
use evidencedesk.Db.Table.{find, save}
use evidencedesk.Db.Rows.{find_document, find_task, save_document, save_task}
use evidencedesk.Db.Sound.{IsSound, rewritten-SoundRows}
use evidencedesk.Db.Growth.{inserted-SoundRows}
use evidencedesk.Api.Responses.{Response}
use evidencedesk.Api.Upload.{
  View, Settings, UploadRequest, UploadWorld, new_document, new_task, inserted, fail_documents,
  fail_tasks, fail_enqueue, found_again, committed, store, deduplicate, admit, in_dossier, approved,
  upload_document,
}

-- The identifiers that the handler drew are in no row, which is what `uuid4` is for.
pub record IsFresh (w : UploadWorld) (desk : Desk) : Type 0 where
  pub document : find_document w.document_id desk.documents ≡ none
  pub task : find_task w.task_id desk.tasks ≡ none
  pub owners :
      (i : ℕ) (t : ProcessingTask) → find_task i desk.tasks ≡ some t → t.document_id ≢ w.document_id

-- The rows of the upload are there, and the document has not been deleted.
pub record IsWaiting (w : UploadWorld) (desk : Desk) : Type 0 where
  pub d : Document
  pub t : ProcessingTask
  pub document : find_document w.document_id desk.documents ≡ some d
  pub document_key : d.id ≡ w.document_id
  pub task : find_task w.task_id desk.tasks ≡ some t
  pub task_key : t.id ≡ w.task_id
  pub owner : t.document_id ≡ w.document_id
  pub alive : d.deleted_at ≡ none

-- The other sessions keep the tables sound, draw no identifier of this upload, and do not delete its
-- document while its enqueueing fails.
pub record IsPolite (w : UploadWorld) : Type 0 where
  pub before_commit :
      (desk : Desk)
      → IsSound desk
      → IsFresh w desk
      → IsSound (w.before_commit desk) × IsFresh w (w.before_commit desk)
  pub before_select : (desk : Desk) → IsSound desk → IsSound (w.before_select desk)
  pub before_failure :
      (desk : Desk)
      → IsSound desk
      → IsWaiting w desk
      → IsSound (w.before_failure desk) × IsWaiting w (w.before_failure desk)

module _ (sha256 : Bytes → ℕ) (settings : Settings) (r : UploadRequest) (w : UploadWorld) where
  abbrev failed_document : Document → Document
  failed_document d = record d {
    status = DocumentStatus.failed;
    error_code = some ErrorCode.queue_unavailable;
  }

  abbrev failed_task : ProcessingTask → ProcessingTask
  failed_task t = record t {
    status = TaskStatus.failed;
    error_code = some ErrorCode.queue_unavailable;
  }

  fail_documents-eq-save_document :
      (rows : List Document) (d : Document)
      → find_document w.document_id rows ≡ some d
      → d.id ≡ w.document_id
      → fail_documents sha256 settings r w rows ≡ save_document (failed_document d) rows
  unfolding fail_documents find_document find save_document save
  fail_documents-eq-save_document [] d h key = refl
  fail_documents-eq-save_document (x ∷ rows) d h key =
      ground (arith, fail_documents-eq-save_document rows d)

  fail_tasks-eq-save_task :
      (rows : List ProcessingTask) (t : ProcessingTask)
      → find_task w.task_id rows ≡ some t
      → t.id ≡ w.task_id
      → fail_tasks sha256 settings r w rows ≡ save_task (failed_task t) rows
  unfolding fail_tasks find_task find save_task save
  fail_tasks-eq-save_task [] t h key = refl
  fail_tasks-eq-save_task (x ∷ rows) t h key = ground (arith, fail_tasks-eq-save_task rows t)

  inserted-IsSound :
      (validated : ValidatedUpload) (key : StorageKey) (desk : Desk)
      → IsSound desk
      → IsFresh w desk
      → IsSound (inserted sha256 settings r w validated key desk)
  inserted-IsSound validated key desk s f =
      inserted-SoundRows s (new_document sha256 settings r w validated key)
        (new_task sha256 settings r w) f.document f.task f.owners refl
        (record { states = refl; codes = λ e. refl }) refl refl

  inserted-IsWaiting :
      (validated : ValidatedUpload) (key : StorageKey) (desk : Desk)
      → IsWaiting w (inserted sha256 settings r w validated key desk)
  unfolding find_document find_task find
  inserted-IsWaiting validated key desk = record {
    d = new_document sha256 settings r w validated key;
    t = new_task sha256 settings r w;
    document = ground arith;
    document_key = refl;
    task = ground arith;
    task_key = refl;
    owner = refl;
    alive = refl;
  }

  fail_enqueue-IsSound :
      (desk : Desk)
      → IsSound desk
      → IsWaiting w desk
      → IsSound (fail_enqueue sha256 settings r w desk)
  unfolding fail_enqueue
  fail_enqueue-IsSound desk s q =
      let found_task : find_task q.t.id desk.tasks ≡ some q.t =
        ap (λ k. find_task k desk.tasks) q.task_key ∙ q.task in
      let found_document : find_document q.d.id desk.documents ≡ some q.d =
        ap (λ k. find_document k desk.documents) q.document_key ∙ q.document in
      rw
        (
          fail_documents-eq-save_document desk.documents q.d q.document q.document_key,
          fail_tasks-eq-save_task desk.tasks q.t q.task q.task_key,
        )
        (rewritten-SoundRows s q.t (failed_task q.t) q.d (failed_document q.d) found_task
          found_document (q.owner ∙ sym q.document_key) refl refl refl desk.chunks desk.extractions
          (record { states = refl; codes = λ e. refl }) (ap is_some q.alive) (λ k ne. (refl, refl))
          (λ e. cc))

  module _ (polite : IsPolite w) where
    either_IsSound :
        (ok : Bool) (end end' : Response View × Desk)
        → IsSound end.1
        → IsSound end'.1
        → IsSound (if ok then end else end').1
    either_IsSound true end end' s s' = s
    either_IsSound false end end' s s' = s'

    found_again-IsSound :
        (desk : Desk) (found : Option Document)
        → IsSound desk
        → IsSound (found_again sha256 settings r w desk found).1
    found_again-IsSound desk none s = s
    found_again-IsSound desk (some existing) s = s

    committed-IsSound :
        (validated : ValidatedUpload) (key : StorageKey) (desk : Desk) (found : Option Document)
        → IsSound desk
        → IsFresh w desk
        → IsSound (committed sha256 settings r w validated key desk found).1
    unfolding fail_enqueue
    committed-IsSound validated key desk (some clashing) s f =
        let seen = w.before_select (record desk { files = delete key desk.files }) in
        let s' = polite.before_select (record desk { files = delete key desk.files }) s in
        either_IsSound w.delete_ok _ _ (found_again-IsSound seen _ s') s
    committed-IsSound validated key desk none s f =
        let inside = inserted-IsSound validated key desk s f in
        elim (Bool-cases w.queue_ok) [
          | inl e ↦ rw e inside
          | inr e ↦
              let (after, waiting) =
                polite.before_failure _ inside (inserted-IsWaiting validated key desk) in
              rw e (fail_enqueue-IsSound _ after waiting)
        ]

    store-IsSound :
        (validated : ValidatedUpload) (key : Option StorageKey) (desk : Desk)
        → IsSound desk
        → IsFresh w desk
        → IsSound (store sha256 settings r w validated key desk).1
    store-IsSound validated none desk s f = s
    store-IsSound validated (some key) desk s f =
        let (s', f') =
          polite.before_commit (record desk { files = put key validated.content desk.files }) s
            (record { document = f.document; task = f.task; owners = f.owners }) in
        either_IsSound w.put_ok _ _ (committed-IsSound validated key _ _ s' f') s

    deduplicate-IsSound :
        (validated : ValidatedUpload) (desk : Desk) (found : Option Document)
        → IsSound desk
        → IsFresh w desk
        → IsSound (deduplicate sha256 settings r w validated desk found).1
    deduplicate-IsSound validated desk (some existing) s f = s
    deduplicate-IsSound validated desk none s f = store-IsSound validated _ desk s f

    admit-IsSound :
        (desk : Desk) (v : Verdict)
        → IsSound desk
        → IsFresh w desk
        → IsSound (admit sha256 settings r w desk v).1
    admit-IsSound desk (Verdict.rejected code) s f = s
    admit-IsSound desk (Verdict.accepted validated) s f =
        elim (Bool-cases (
          settings.public_demo_mode
          && not (approved validated.sha256 settings.public_demo_hashes))) [
            | inl e ↦ rw e s
            | inr e ↦ rw e (deduplicate-IsSound validated desk _ s f)
          ]

    in_dossier-IsSound :
        (desk : Desk) (found : Option Dossier)
        → IsSound desk
        → IsFresh w desk
        → IsSound (in_dossier sha256 settings r w desk found).1
    in_dossier-IsSound desk none s f = s
    in_dossier-IsSound desk (some dossier) s f = admit-IsSound desk _ s f

    -- An upload keeps the tables sound, whichever way it ends, if its identifiers are fresh and the
    -- sessions that commit in between keep the tables sound, draw no identifier of it, and do not
    -- delete its document while its enqueueing fails.
    pub upload_document-IsSound :
        (desk : Desk)
        → IsSound desk
        → IsFresh w desk
        → IsSound (upload_document sha256 settings r w desk).1
    unfolding upload_document
    upload_document-IsSound desk s f =
        elim (Bool-cases (settings.public_demo_mode && not r.is_synthetic)) [
          | inl e ↦ rw e s
          | inr e ↦ rw e (in_dossier-IsSound desk _ s f)
        ]
