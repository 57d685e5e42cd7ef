-- ===== src/Examples.antt =====
-- A small desk, on which the theorems are applied: one user, one dossier, and one text file that is
-- waiting to be processed.
pub mod Work
pub mod Handlers
pub mod Interleaved
pub mod Limits
pub mod Chunks
pub mod Views
pub mod Bodies
pub mod Answers
pub mod Parsing
pub mod Shown
pub mod Seeding
pub mod Local
pub mod Holdout
pub mod Sessions
use evidencedesk.Prelude.{
  subst, ℕ, ◌+◌, ◌≤◌, ◌≡◌, refl, Text, Bytes, true, false, none, some, List, [], ◌∷◌, codes, length,
  arith,
}
use evidencedesk.Auth.{Role, UserPrincipal}
use evidencedesk.Json.{Json}
use evidencedesk.Db.{
  User, Dossier, Document, DocumentStatus, ProcessingTask, TaskStatus, MediaType, Suffix,
  StorageKey, Desk, Job, StoredFile, AuditEvent, AuditAction, AuditResult, Metadata,
}
use evidencedesk.Db.Table.{find}
use evidencedesk.Db.Rows.{
  find_document, find_task, find_task_of, find_active, save_document, save_task,
}
use evidencedesk.Db.Sound.{IsSound}
use evidencedesk.Python.Strings.{
  same, replace, contains, is_blank, lower, strip, starts_with, is_space, lstrip, rstrip,
}
use evidencedesk.Python.PosixPath.{name, suffix, last_dot, last_component, split_on}
use evidencedesk.Python.Utf8.{decode, decode_from}
use evidencedesk.Storage.{put, delete}
use evidencedesk.Uploads.{
  ValidatedUpload, known_suffix, declarable, safe_filename, suffix_of, check_text, check_content,
  validate_upload, build_storage_key,
}
use evidencedesk.Processing.{Attempt, value, exception, Block, ParsedPage, DocumentChunk}
use evidencedesk.Evidence.{EvidenceChunk}
use evidencedesk.Worker.Stages.{Pipeline}
use evidencedesk.Worker.Run.{Schedule}
use evidencedesk.Worker.Interleaving
use evidencedesk.Api.Upload.{Settings, UploadRequest, UploadWorld, approved, upload_document}
use evidencedesk.Api.Upload.Soundness.{IsFresh, upload_document-IsSound}
use evidencedesk.Api.Upload.Soundness
use evidencedesk.System.{IsEmpty}
use evidencedesk.System.Safety.{IsEmpty-IsSound}

abbrev pub ana : UserPrincipal
ana = record { id = 1; username = codes "ana"; role = Role.admin }

abbrev pub empty_desk : Desk
empty_desk = record {
  users =
      record {
        id = 1;
        username = codes "ana";
        password_hash = codes "x";
        role = Role.admin;
        is_active = true;
      }
      ∷ [];
  dossiers = record { id = 5; name = codes "acme"; description = []; is_synthetic = true } ∷ [];
  documents = [];
  tasks = [];
  chunks = [];
  extractions = [];
  audit_events = [];
  files = [];
  jobs = [];
  metrics = [];
}

abbrev pub content : Bytes
content = codes "net 30 days"

abbrev pub key : StorageKey
key = record { owner = 7; suffix = Suffix.txt }

abbrev pub document : Document
document = record {
  id = 7;
  dossier_id = 5;
  filename = codes "a.txt";
  media_type = MediaType.text_plain;
  size_bytes = 11;
  content_sha256 = 11;
  storage_key = key;
  status = DocumentStatus.queued;
  is_synthetic = true;
  correlation_id = 99;
  error_code = none;
  created_at = 1000;
  completed_at = none;
  deleted_at = none;
}

abbrev pub task : ProcessingTask
task = record {
  id = 8;
  document_id = 7;
  status = TaskStatus.queued;
  attempts = 0;
  correlation_id = 99;
  error_code = none;
  queued_at = 1000;
  started_at = none;
  completed_at = none;
}

-- The desk after the file was uploaded
abbrev pub waiting : Desk
waiting = record empty_desk {
  documents = document ∷ [];
  tasks = task ∷ [];
  audit_events =
      record {
        actor_id = some 1;
        action = AuditAction.document_upload;
        document_id = some 7;
        result = AuditResult.queued;
        correlation_id = 99;
        metadata_safe = Metadata.upload MediaType.text_plain 11;
      }
      ∷ [];
  files = record { key = key; content = content } ∷ [];
  jobs = record { document_id = 7; task_id = 8; correlation_id = 99 } ∷ [];
}

abbrev pub digest : Bytes → ℕ
digest = length

abbrev pub settings : Settings
settings = record { public_demo_mode = true; max_upload_bytes = 20; public_demo_hashes = 11 ∷ [] }

abbrev pub request : UploadRequest
request = record {
  dossier_id = 5;
  principal = ana;
  correlation_id = 99;
  is_synthetic = true;
  filename = some (codes "b/a.txt");
  content_type = some (codes "text/plain");
  content = content;
}

abbrev pub world : UploadWorld
world = record {
  document_id = 7;
  task_id = 8;
  now = 1000;
  put_ok = true;
  delete_ok = true;
  queue_ok = true;
  before_commit = λ desk. desk;
  before_select = λ desk. desk;
  before_failure = λ desk. desk;
}

pub world-IsPolite : Soundness.IsPolite world
world-IsPolite = record {
  before_commit = λ desk s f. (s, f);
  before_select = λ desk s. s;
  before_failure = λ desk s f. (s, f);
}

pub world-IsFresh : IsFresh world empty_desk
unfolding find_document find_task find
world-IsFresh = record { document = refl; task = refl; owners = λ i t h. cc }

pub empty_desk-IsEmpty : IsEmpty empty_desk
empty_desk-IsEmpty = (refl, refl, refl, refl)

-- What an upload leaves is this desk.
pub uploaded : (upload_document digest settings request world empty_desk).1 ≡ waiting
unfolding upload_document find approved validate_upload safe_filename suffix_of known_suffix
    declarable check_content check_text build_storage_key same replace contains is_blank lower
    starts_with name suffix decode decode_from last_dot last_component split_on is_space lstrip
    rstrip strip put delete find_active find_task_of
uploaded = refl

pub waiting-IsSound : IsSound waiting
waiting-IsSound = subst IsSound uploaded (
    upload_document-IsSound digest settings request world world-IsPolite empty_desk
      (IsEmpty-IsSound digest empty_desk empty_desk-IsEmpty) world-IsFresh)

-- One page, one chunk, and one number as its embedding
abbrev pub pipeline : Pipeline
pipeline = record {
  parse_document = λ bytes media.
      value (record { page = 1; blocks = record { section = none; text = bytes } ∷ [] } ∷ []);
  redact_pii = λ text. text;
  chunk_pages =
      λ pages. value (record { page = 1; section = none; ordinal = 0; text = content } ∷ []);
  model_id = codes "hash";
  embed_many = λ texts. value ((4 ∷ []) ∷ []);
  extract = λ evidence. value Json.null;
}

-- The same with an embedding model that fails
abbrev pub broken : Pipeline
broken = record pipeline { embed_many = λ texts. exception }

abbrev pub quiet : Schedule
quiet = record {
  started = 2000;
  ended = 3000;
  uuid = λ n. 70 + n;
  disk_ok = true;
  begin_ok = true;
  commit_ok = true;
  failure_ok = true;
  before_read = λ desk. desk;
  before_outcome = λ desk. desk;
  before_failure = λ desk. desk;
}

pub quiet-IsPolite : (P : Desk → Type 0) → Interleaving.IsPolite P quiet
quiet-IsPolite P = record {
  before_read = λ desk h. h;
  before_outcome = λ desk h. h;
  before_failure = λ desk h. h;
}
