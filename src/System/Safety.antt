-- ===== src/System/Safety.antt =====
-- What holds of every desk that the API and the worker can bring about.
use evidencedesk.Prelude.{ℕ, ◌≡◌, Bytes, true, some, [], arith}
use evidencedesk.Db.{Document, ProcessingTask, Desk}
use evidencedesk.Db.Table.{find}
use evidencedesk.Db.Rows.{find_document, find_task, chunks_of, extractions_of, is_deleted}
use evidencedesk.Db.Sound.{SoundRows, IsSound, Mirrors}
use evidencedesk.Worker.Soundness.{
  record_storage_failure-IsSound, record_parse_failure-IsSound, record_processing_failure-IsSound,
  begin_processing-IsSound, complete_processing-IsSound,
}
use evidencedesk.Api.Upload.Soundness.{upload_document-IsSound}
use evidencedesk.Api.Delete.Soundness.{delete_document-IsSound}
use evidencedesk.System.{Step, Reach, IsEmpty, here, next}

no_rows-SoundRows : SoundRows [] [] [] []
unfolding find_document find_task find
no_rows-SoundRows = record {
  marked = λ k d h. cc;
  mirrored = λ i t d h. cc;
  unique = λ i j t u h. cc;
  distinct = tt;
  emptied = λ k d h. cc;
}

module _ (sha256 : Bytes → ℕ) where
  Step-IsSound : {a b : Desk} → Step sha256 a b → IsSound a → IsSound b
  Step-IsSound (Step.upload settings r w desk fresh polite) s =
      upload_document-IsSound sha256 settings r w polite desk s fresh
  Step-IsSound (Step.delete document_id principal correlation_id now disk_ok desk) s =
      delete_document-IsSound document_id principal correlation_id now desk disk_ok s
  Step-IsSound (Step.begin document_id task_id now desk) s =
      begin_processing-IsSound document_id task_id now desk s
  Step-IsSound (Step.storage_failure document_id task_id now again desk) s =
      record_storage_failure-IsSound document_id task_id now desk s again
  Step-IsSound (Step.parse_failure document_id task_id now code desk) s =
      record_parse_failure-IsSound document_id task_id now desk s code
  Step-IsSound (Step.processing_failure document_id task_id now again desk) s =
      record_processing_failure-IsSound document_id task_id now desk s again
  Step-IsSound (Step.complete document_id task_id now models payload desk own) s =
      complete_processing-IsSound document_id task_id now desk s models payload own
  Step-IsSound (Step.count m desk) s = s

  Reach-IsSound : {start desk : Desk} → IsSound start → Reach sha256 start desk → IsSound desk
  Reach-IsSound s here = s
  Reach-IsSound s (next r st) = Step-IsSound st (Reach-IsSound s r)

  pub IsEmpty-IsSound : (start : Desk) → IsEmpty start → IsSound start
  IsEmpty-IsSound start e = rw (e.0, e.1, e.2, e.3) no_rows-SoundRows

  -- Starting without documents, in every desk that uploads, deletions and the transactions of worker
  -- runs bring about in any order, each upload with fresh identifiers and none deleted while its
  -- enqueueing fails: once a document is deleted, none of its chunks and no extraction of it are in
  -- the tables.
  pub deleted_leaves_nothing :
      (start desk : Desk) (k : ℕ) (d : Document)
      → IsEmpty start
      → Reach sha256 start desk
      → find_document k desk.documents ≡ some d
      → is_deleted d ≡ true
      → (chunks_of k desk.chunks ≡ []) × (extractions_of k desk.extractions ≡ [])
  deleted_leaves_nothing start desk k d e r h gone =
      let s = Reach-IsSound (IsEmpty-IsSound start e) r in
      s.emptied k d h (ground (arith, s.marked k d h))

  -- In the same desks the status of a task and that of its document agree: both are queued, both
  -- processing, both completed or both failed, or the document is deleted and the task completed or
  -- failed; and unless the document is deleted they carry the same error code.
  pub states_agree :
      (start desk : Desk) (i : ℕ) (t : ProcessingTask) (d : Document)
      → IsEmpty start
      → Reach sha256 start desk
      → find_task i desk.tasks ≡ some t
      → find_document t.document_id desk.documents ≡ some d
      → Mirrors t d
  states_agree start desk i t d e r ht hd =
      (Reach-IsSound (IsEmpty-IsSound start e) r).mirrored i t d ht hd
