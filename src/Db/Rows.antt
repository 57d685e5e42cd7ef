-- ===== src/Db/Rows.antt =====
-- Queries and writes that the API and the worker share, each with its law.
use evidencedesk.Prelude.{
  ℕ, ◌≡◌, ◌≢◌, Bool, true, false, Option, some, List, [], ◌∷◌, ◌++◌, arith, ◌==◌, not, ◌||◌,
  if◌then◌else◌, is_some, select, All, select-append, Bool-cases, inl, inr, ◌&&◌, none,
}
use mathlib.Core.List.{append-nil}
use evidencedesk.Db.{
  Document, DocumentStatus, ProcessingTask, Chunk, Extraction, Desk, AuditEvent, Metric,
}
use evidencedesk.Db.Table.{Distinct, Distinct-save, find, save, replaced, find-save, key-find}

abbrev document_key : Document → ℕ
document_key d = d.id

abbrev task_key : ProcessingTask → ℕ
task_key t = t.id

-- `select(Document).where(Document.id == document_id)`
unfoldable pub find_document : ℕ → List Document → Option Document
unfolding find
find_document = find document_key

unfoldable pub find_task : ℕ → List ProcessingTask → Option ProcessingTask
unfolding find
find_task = find task_key

unfoldable pub save_document : Document → List Document → List Document
unfolding save
save_document = save document_key

unfoldable pub save_task : ProcessingTask → List ProcessingTask → List ProcessingTask
unfolding save
save_task = save task_key

pub find_document-save_document :
    (k : ℕ) (d : Document) (rows : List Document)
    → find_document k (save_document d rows)
      ≡ (if d.id == k then replaced d (find_document k rows) else find_document k rows)
unfolding find_document save_document
find_document-save_document k d rows = find-save document_key k d rows

pub find_task-save_task :
    (k : ℕ) (t : ProcessingTask) (rows : List ProcessingTask)
    → find_task k (save_task t rows)
      ≡ (if t.id == k then replaced t (find_task k rows) else find_task k rows)
unfolding find_task save_task
find_task-save_task k t rows = find-save task_key k t rows

pub id-find_document :
    (k : ℕ) (rows : List Document) (d : Document) → find_document k rows ≡ some d → d.id ≡ k
unfolding find_document
id-find_document k rows d h = key-find document_key k rows d h

pub id-find_task :
    (k : ℕ) (rows : List ProcessingTask) (t : ProcessingTask) → find_task k rows ≡ some t → t.id ≡ k
unfolding find_task
id-find_task k rows t h = key-find task_key k rows t h

-- `select(Chunk).where(Chunk.document_id == document_id)`
unfoldable pub chunks_of : ℕ → List Chunk → List Chunk
chunks_of k = select (λ (c : Chunk). c.document_id == k)

unfoldable pub extractions_of : ℕ → List Extraction → List Extraction
extractions_of k = select (λ (x : Extraction). x.document_id == k)

-- `delete(Chunk).where(Chunk.document_id == document_id)`
unfoldable pub delete_chunks : ℕ → List Chunk → List Chunk
delete_chunks k = select (λ (c : Chunk). not (c.document_id == k))

unfoldable pub delete_extractions : ℕ → List Extraction → List Extraction
delete_extractions k = select (λ (x : Extraction). not (x.document_id == k))

pub chunks_of-delete_chunks :
    (j k : ℕ) (rows : List Chunk)
    → chunks_of j (delete_chunks k rows) ≡ (if k == j then [] else chunks_of j rows)
unfolding chunks_of delete_chunks
chunks_of-delete_chunks j k [] = ground arith
chunks_of-delete_chunks j k (c ∷ rows) = ground (arith, chunks_of-delete_chunks j k rows)

pub extractions_of-delete_extractions :
    (j k : ℕ) (rows : List Extraction)
    → extractions_of j (delete_extractions k rows) ≡ (if k == j then [] else extractions_of j rows)
unfolding extractions_of delete_extractions
extractions_of-delete_extractions j k [] = ground arith
extractions_of-delete_extractions j k (c ∷ rows) =
    ground (arith, extractions_of-delete_extractions j k rows)

pub chunks_of-append :
    (j : ℕ) (xs ys : List Chunk) → chunks_of j (xs ++ ys) ≡ chunks_of j xs ++ chunks_of j ys
unfolding chunks_of
chunks_of-append j = select-append _

pub extractions_of-append :
    (j : ℕ) (xs ys : List Extraction)
    → extractions_of j (xs ++ ys) ≡ extractions_of j xs ++ extractions_of j ys
unfolding extractions_of
extractions_of-append j = select-append _

chunks_of_own :
    (j k : ℕ) (models : List Chunk)
    → All (λ (c : Chunk). c.document_id ≡ j) models
    → chunks_of k models ≡ (if j == k then models else [])
unfolding chunks_of
chunks_of_own j k [] own = ground arith
chunks_of_own j k (c ∷ models) own = ground (arith, chunks_of_own j k models own.1)

-- Deleting a document's chunks and adding others of its own replaces them, and no others.
pub chunks_of_replaced :
    (j k : ℕ) (rows models : List Chunk)
    → All (λ (c : Chunk). c.document_id ≡ j) models
    → chunks_of k (delete_chunks j rows ++ models) ≡ (if j == k then models else chunks_of k rows)
chunks_of_replaced j k rows models own =
    rw
      (
        chunks_of-append k (delete_chunks j rows) models,
        chunks_of-delete_chunks k j rows,
        chunks_of_own j k models own,
      )
      (elim (Bool-cases (j == k)) [ inl e ↦ rw e | inr e ↦ rw e (append-nil _) ])

extractions_of_own :
    (j k : ℕ) (x : Extraction)
    → x.document_id ≡ j
    → extractions_of k (x ∷ []) ≡ (if j == k then x ∷ [] else [])
unfolding extractions_of
extractions_of_own j k x own = ground arith

pub extractions_of_replaced :
    (j k : ℕ) (rows : List Extraction) (x : Extraction)
    → x.document_id ≡ j
    → extractions_of k (delete_extractions j rows ++ x ∷ [])
      ≡ (if j == k then x ∷ [] else extractions_of k rows)
extractions_of_replaced j k rows x own =
    rw
      (
        extractions_of-append k (delete_extractions j rows) (x ∷ []),
        extractions_of-delete_extractions k j rows,
        extractions_of_own j k x own,
      )
      (elim (Bool-cases (j == k)) [ inl e ↦ rw e | inr e ↦ rw e (append-nil _) ])

-- `session.add(AuditEvent(...))`
abbrev pub add_audit : AuditEvent → Desk → Desk
add_audit e desk = record desk { audit_events = desk.audit_events ++ e ∷ [] }

abbrev pub count_metric : Metric → Desk → Desk
count_metric m desk = record desk { metrics = desk.metrics ++ m ∷ [] }

-- `document.deleted_at is not None or document.status == DocumentStatus.DELETED`
abbrev pub is_deleted : Document → Bool
is_deleted d = is_some d.deleted_at || elim d.status [ DocumentStatus.deleted ↦ true | _ ↦ false ]

-- `select(ProcessingTask).where(ProcessingTask.document_id == document_id)`
unfoldable pub find_task_of : ℕ → List ProcessingTask → Option ProcessingTask
find_task_of k [] = none
find_task_of k (t ∷ rows) = if t.document_id == k then some t else find_task_of k rows

abbrev is_active_copy : ℕ → ℕ → Document → Bool
is_active_copy dossier_id sha256 d =
    d.dossier_id == dossier_id && d.content_sha256 == sha256 && not (is_some d.deleted_at)

-- The select of an active document by dossier and digest, which is also what the index
-- `uq_active_document_hash` keeps unique
unfoldable pub find_active : ℕ → ℕ → List Document → Option Document
find_active dossier_id sha256 [] = none
find_active dossier_id sha256 (d ∷ rows) =
    if is_active_copy dossier_id sha256 d then some d else find_active dossier_id sha256 rows

-- No two tasks have one identifier.
abbrev pub DistinctTasks : List ProcessingTask → Type 0
DistinctTasks = Distinct task_key

pub DistinctTasks-save_task :
    (t : ProcessingTask) (rows : List ProcessingTask)
    → DistinctTasks rows
    → DistinctTasks (save_task t rows)
unfolding save_task
DistinctTasks-save_task t rows d = Distinct-save task_key t rows d

pub find_task-find_task_of :
    (k : ℕ) (rows : List ProcessingTask) (t : ProcessingTask)
    → DistinctTasks rows
    → find_task_of k rows ≡ some t
    → (find_task t.id rows ≡ some t) × (t.document_id ≡ k)
unfolding find_task_of find_task find
find_task-find_task_of k [] t d h = cc
find_task-find_task_of k (x ∷ rows) t d h = elim (Bool-cases (x.document_id == k)) [
  | inl e ↦ ground (arith, e)
  | inr e ↦
      let (found, owner) = find_task-find_task_of k rows t d.1 (rw e at h) in
      (ground (arith, found, d.0), owner)
]

-- A document without a task has none.
pub find_task_of-none :
    (k i : ℕ) (rows : List ProcessingTask) (t : ProcessingTask)
    → find_task_of k rows ≡ none
    → find_task i rows ≡ some t
    → t.document_id ≢ k
unfolding find_task_of find_task find
find_task_of-none k i [] t h f = cc
find_task_of-none k i (x ∷ rows) t h f = ground (arith, find_task_of-none k i rows t)
