-- ===== src/Api/Upload.antt =====
-- main.py: `upload_document`.
pub mod Soundness
use evidencedesk.Prelude.{
  ℕ, suc, ◌+◌, ◌≡◌, Text, Bytes, Bool, true, false, Option, none, some, List, [], ◌∷◌, ◌++◌, not,
  ◌&&◌, ◌||◌, ◌==◌, if◌then◌else◌, codes, length, take,
}
use evidencedesk.Auth.{UserPrincipal}
use evidencedesk.Storage.{put, delete}
use evidencedesk.Uploads.{ValidatedUpload, Verdict, validate_upload, build_storage_key}
use evidencedesk.Db.{
  Document, DocumentStatus, ProcessingTask, TaskStatus, ErrorCode, StorageKey, Dossier, Desk,
  AuditEvent, AuditAction, AuditResult, Metadata, Job,
}
use evidencedesk.Db.Table.{find}
use evidencedesk.Db.Rows.{
  find_document, find_task, save_document, save_task, find_task_of, find_active, add_audit,
}
use evidencedesk.Api.Responses.{Detail, Response, reply, refused, crashed}

pub record Settings : Type 0 where
  pub public_demo_mode : Bool
  pub max_upload_bytes : ℕ
  pub public_demo_hashes : List ℕ

pub record UploadRequest : Type 0 where
  pub dossier_id : ℕ
  pub principal : UserPrincipal
  pub correlation_id : ℕ
  pub is_synthetic : Bool
  pub filename : Option Text
  pub content_type : Option Text
  pub content : Bytes

-- What the handler meets: the two identifiers from `uuid4`, the time, whether the file can be written
-- and can be removed, whether the queue takes the job, and what other sessions commit before its own
-- commit, between a refused one and the second select, and before that of a failed enqueueing.
pub record UploadWorld : Type 0 where
  pub document_id : ℕ
  pub task_id : ℕ
  pub now : ℕ
  pub put_ok : Bool
  pub delete_ok : Bool
  pub queue_ok : Bool
  pub before_commit : Desk → Desk
  pub before_select : Desk → Desk
  pub before_failure : Desk → Desk

-- The document and the identifier of its task, as the `DocumentView` shows them.
abbrev pub View : Type 0
View = Document × Option ℕ

abbrev task_id_of : Option ProcessingTask → Option ℕ
task_id_of none = none
task_id_of (some t) = some t.id

abbrev pub view : Document → Desk → View
view d desk = (d, task_id_of (find_task_of d.id desk.tasks))

-- `value or default`
abbrev pub or_default : Option Text → Text → Text
or_default none d = d
or_default (some []) d = d
or_default (some (c ∷ s)) d = c ∷ s

-- `digest in hashes`
unfoldable pub approved : ℕ → List ℕ → Bool
approved digest [] = false
approved digest (h ∷ hashes) = digest == h || approved digest hashes

abbrev pub dossier_key : Dossier → ℕ
dossier_key d = d.id

module _ (sha256 : Bytes → ℕ) (settings : Settings) (r : UploadRequest) (w : UploadWorld) where
  abbrev pub event : AuditAction → AuditResult → ℕ → Metadata → AuditEvent
  event action result document_id metadata = record {
    actor_id = some r.principal.id;
    action = action;
    document_id = some document_id;
    result = result;
    correlation_id = r.correlation_id;
    metadata_safe = metadata;
  }

  abbrev pub new_document : ValidatedUpload → StorageKey → Document
  new_document validated key = record {
    id = w.document_id;
    dossier_id = r.dossier_id;
    filename = validated.safe_filename;
    media_type = validated.media_type;
    size_bytes = length validated.content;
    content_sha256 = validated.sha256;
    storage_key = key;
    status = DocumentStatus.queued;
    is_synthetic = r.is_synthetic;
    correlation_id = r.correlation_id;
    error_code = none;
    created_at = w.now;
    completed_at = none;
    deleted_at = none;
  }

  abbrev pub new_task : ProcessingTask
  new_task = record {
    id = w.task_id;
    document_id = w.document_id;
    status = TaskStatus.queued;
    attempts = 0;
    correlation_id = r.correlation_id;
    error_code = none;
    queued_at = w.now;
    started_at = none;
    completed_at = none;
  }

  -- The commit of the new rows
  abbrev pub inserted : ValidatedUpload → StorageKey → Desk → Desk
  inserted validated key desk =
      add_audit
        (event AuditAction.document_upload AuditResult.queued w.document_id
          (Metadata.upload validated.media_type (length validated.content)))
        (record desk {
          documents = new_document validated key ∷ desk.documents;
          tasks = new_task ∷ desk.tasks;
        })

  -- The columns that the handler of a failed enqueueing writes, on the rows as they then are
  unfoldable pub fail_documents : List Document → List Document
  fail_documents [] = []
  fail_documents (d ∷ rows) =
      if d.id == w.document_id
      then record d {
        status = DocumentStatus.failed;
        error_code = some ErrorCode.queue_unavailable;
      }
        ∷ rows
      else d ∷ fail_documents rows

  unfoldable pub fail_tasks : List ProcessingTask → List ProcessingTask
  fail_tasks [] = []
  fail_tasks (t ∷ rows) =
      if t.id == w.task_id
      then record t { status = TaskStatus.failed; error_code = some ErrorCode.queue_unavailable }
        ∷ rows
      else t ∷ fail_tasks rows

  unfoldable pub fail_enqueue : Desk → Desk
  unfolding fail_documents fail_tasks
  fail_enqueue desk =
      add_audit
        (event AuditAction.document_enqueue AuditResult.failed w.document_id Metadata.nothing)
        (record desk { documents = fail_documents desk.documents; tasks = fail_tasks desk.tasks })

  abbrev pub enqueued : Desk → Desk
  enqueued desk = record desk {
    jobs =
        desk.jobs
        ++ record {
          document_id = w.document_id;
          task_id = w.task_id;
          correlation_id = r.correlation_id;
        }
          ∷ [];
  }

  -- The second select, after a refused commit: without an active copy the exception is raised again.
  abbrev pub found_again : Desk → Option Document → Response View × Desk
  found_again desk none = (crashed, desk)
  found_again desk (some existing) = (reply 200 (view existing desk), desk)

  -- The handler of the `IntegrityError`
  abbrev pub conflicted : ValidatedUpload → StorageKey → Desk → Response View × Desk
  conflicted validated key desk =
      let seen = w.before_select (record desk { files = delete key desk.files }) in
      if w.delete_ok
      then found_again seen (find_active r.dossier_id validated.sha256 seen.documents)
      else (crashed, desk)

  -- From the commit on; the index refuses a second active copy.
  abbrev pub committed :
      ValidatedUpload → StorageKey → Desk → Option Document → Response View × Desk
  committed validated key desk (some clashing) = conflicted validated key desk
  committed validated key desk none =
      if w.queue_ok
      then (
        reply 202 (new_document validated key, some w.task_id),
        enqueued (inserted validated key desk),
      )
      else (
        refused 503 Detail.queue_unavailable,
        fail_enqueue (w.before_failure (inserted validated key desk)),
      )

  abbrev pub store : ValidatedUpload → Option StorageKey → Desk → Response View × Desk
  store validated none desk = (crashed, desk)
  store validated (some key) desk =
      let stored = w.before_commit (record desk { files = put key validated.content desk.files }) in
      if w.put_ok
      then committed validated key stored
          (find_active r.dossier_id validated.sha256 stored.documents)
      else (crashed, desk)

  abbrev pub deduplicate : ValidatedUpload → Desk → Option Document → Response View × Desk
  deduplicate validated desk (some existing) = (
    reply 200 (view existing desk),
    add_audit
        (event AuditAction.document_upload AuditResult.deduplicated existing.id Metadata.nothing)
        desk,
  )
  deduplicate validated desk none =
      store validated (build_storage_key w.document_id validated.safe_filename) desk

  abbrev pub admit : Desk → Verdict → Response View × Desk
  admit desk (Verdict.rejected code) = (refused 422 (Detail.upload_rejected code), desk)
  admit desk (Verdict.accepted validated) =
      if settings.public_demo_mode && not (approved validated.sha256 settings.public_demo_hashes)
      then (refused 422 Detail.public_demo_file_not_approved, desk)
      else deduplicate validated desk (find_active r.dossier_id validated.sha256 desk.documents)

  abbrev pub in_dossier : Desk → Option Dossier → Response View × Desk
  in_dossier desk none = (refused 404 Detail.dossier_not_found, desk)
  in_dossier desk (some dossier) = admit desk (
      validate_upload sha256 (or_default r.filename (codes "upload"))
        (or_default r.content_type (codes "application/octet-stream"))
        (take (settings.max_upload_bytes + 1) r.content) settings.max_upload_bytes)

  -- `upload_document`
  unfoldable pub upload_document : Desk → Response View × Desk
  unfolding find approved
  upload_document desk =
      if settings.public_demo_mode && not r.is_synthetic
      then (refused 422 Detail.synthetic_attestation_required, desk)
      else in_dossier desk (find dossier_key r.dossier_id desk.dossiers)
