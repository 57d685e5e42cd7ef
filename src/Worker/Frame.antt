-- ===== src/Worker/Frame.antt =====
-- jobs.py: a run writes nothing of any other document.
use evidencedesk.Prelude.{
  ℕ, ◌≡◌, ◌≢◌, refl, Bool, false, Option, List, arith, All, Bool-cases, inl, inr,
}
use evidencedesk.Json.{Json}
use evidencedesk.Db.{Document, ProcessingTask, Chunk, Extraction, Desk, ErrorCode, Metric}
use evidencedesk.Db.Rows.{
  count_metric, find_document, save_document, find_document-save_document, chunks_of,
  extractions_of, chunks_of_replaced, extractions_of_replaced,
}
use evidencedesk.Worker.Transactions.{
  begin_processing, record_storage_failure, record_parse_failure, record_processing_failure,
  complete_processing, cancel_deleted_document, already_cancelled, is_completed, record_failure,
  failed_document, begun_document, finished_document, finish,
}
use evidencedesk.Worker.Locking.{IsHeld, Locked-cases, held_document_id}
use evidencedesk.Worker.Stages.{Pipeline}
use evidencedesk.Worker.Run.{Schedule, process_document}
use evidencedesk.Worker.Interleaving.{IsPolite, process_document-keeps}

-- What the tables hold of document `j`.
pub record Holds (j : ℕ) (row : Option Document) (chunks : List Chunk)
    (extractions : List Extraction) (desk : Desk) : Type 0 where
  pub document : find_document j desk.documents ≡ row
  pub chunks_kept : chunks_of j desk.chunks ≡ chunks
  pub extractions_kept : extractions_of j desk.extractions ≡ extractions

counted :
    {j : ℕ} {row : Option Document} {chunks : List Chunk} {extractions : List Extraction}
    {desk : Desk} (m : Metric)
    → Holds j row chunks extractions desk
    → Holds j row chunks extractions (count_metric m desk)
counted m h = record {
  document = h.document;
  chunks_kept = h.chunks_kept;
  extractions_kept = h.extractions_kept;
}

module _ (j : ℕ) (row : Option Document) (chunks : List Chunk) (extractions : List Extraction)
    (document_id task_id : ℕ) (other : j ≢ document_id) (now : ℕ) (desk : Desk)
    (holds : Holds j row chunks extractions desk) where
  document_kept :
      {gone : Bool} (t : ProcessingTask) (d d' : Document)
      → IsHeld task_id document_id desk gone t d
      → d'.id ≡ d.id
      → find_document j (save_document d' desk.documents) ≡ row
  document_kept t d d' held same = ground (
    arith,
    find_document-save_document j d' desk.documents,
    held_document_id task_id document_id desk t d held,
    holds.document,
  )

  cancel-Holds :
      (t : ProcessingTask) (d : Document)
      → Holds j row chunks extractions (cancel_deleted_document now t d desk)
  unfolding cancel_deleted_document
  cancel-Holds t d = elim (Bool-cases (already_cancelled t.status t.error_code)) [
    | inl e ↦ rw e (record {
      document = holds.document;
      chunks_kept = holds.chunks_kept;
      extractions_kept = holds.extractions_kept;
    })
    | inr e ↦ rw e (record {
      document = holds.document;
      chunks_kept = holds.chunks_kept;
      extractions_kept = holds.extractions_kept;
    })
  ]

  failure-Holds :
      (t : ProcessingTask) (d : Document) (again : Bool) (code : ErrorCode)
      → IsHeld task_id document_id desk false t d
      → Holds j row chunks extractions (record_failure document_id again code now t d desk)
  failure-Holds t d again code held = record {
    document = document_kept t d (failed_document again code d) held refl;
    chunks_kept = holds.chunks_kept;
    extractions_kept = holds.extractions_kept;
  }

  finish-Holds :
      (t : ProcessingTask) (d : Document) (models : List Chunk) (payload : Json)
      → IsHeld task_id document_id desk false t d
      → All (λ (c : Chunk). c.document_id ≡ document_id) models
      → Holds j row chunks extractions (finish document_id now models payload t d desk)
  finish-Holds t d models payload held own = record {
    document = document_kept t d (finished_document now d) held refl;
    chunks_kept =
        ground (arith, chunks_of_replaced document_id j desk.chunks models own, holds.chunks_kept);
    extractions_kept = ground (
      arith,
      extractions_of_replaced document_id j desk.extractions
          (record { document_id = document_id; payload = payload }) refl,
      holds.extractions_kept,
    );
  }

  storage-Holds :
      (again : Bool)
      → Holds j row chunks extractions (record_storage_failure document_id task_id again now desk).1
  unfolding record_storage_failure
  storage-Holds again = elim (Locked-cases task_id document_id desk) [
    | inl e ↦ rw (e, record_storage_failure) holds
    | inr (inl (t, d, e, held)) ↦ rw (e, record_storage_failure) (cancel-Holds t d)
    | inr (inr (t, d, e, held)) ↦ rw (e, record_storage_failure) (failure-Holds t d again _ held)
  ]

  parse-Holds :
      (code : ErrorCode)
      → Holds j row chunks extractions (record_parse_failure document_id task_id code now desk).1
  unfolding record_parse_failure
  parse-Holds code = elim (Locked-cases task_id document_id desk) [
    | inl e ↦ rw (e, record_parse_failure) holds
    | inr (inl (t, d, e, held)) ↦ rw (e, record_parse_failure) (cancel-Holds t d)
    | inr (inr (t, d, e, held)) ↦ rw (e, record_parse_failure) (failure-Holds t d false code held)
  ]

  processing-Holds :
      (again : Bool)
      → Holds j row chunks extractions
          (record_processing_failure document_id task_id again now desk).1
  unfolding record_processing_failure
  processing-Holds again = elim (Locked-cases task_id document_id desk) [
    | inl e ↦ rw (e, record_processing_failure) holds
    | inr (inl (t, d, e, held)) ↦ rw (e, record_processing_failure) (cancel-Holds t d)
    | inr (inr (t, d, e, held)) ↦ rw (e, record_processing_failure) (failure-Holds t d again _ held)
  ]

  begin-Holds : Holds j row chunks extractions (begin_processing document_id task_id now desk).1
  unfolding begin_processing
  begin-Holds = elim (Locked-cases task_id document_id desk) [
    | inl e ↦ rw (e, begin_processing) (counted _ holds)
    | inr (inl (t, d, e, held)) ↦ rw (e, begin_processing) (cancel-Holds t d)
    | inr (inr (t, d, e, held)) ↦ elim (Bool-cases (is_completed d.status)) [
      | inl c ↦ rw (e, begin_processing, c) holds
      | inr c ↦
          rw (e, begin_processing, c)
            (record {
              document = document_kept t d (begun_document d) held refl;
              chunks_kept = holds.chunks_kept;
              extractions_kept = holds.extractions_kept;
            })
    ]
  ]

  complete-Holds :
      (models : List Chunk) (payload : Json)
      → All (λ (c : Chunk). c.document_id ≡ document_id) models
      → Holds j row chunks extractions
          (complete_processing document_id task_id now models payload desk).1
  unfolding complete_processing
  complete-Holds models payload own = elim (Locked-cases task_id document_id desk) [
    | inl e ↦ rw (e, complete_processing) (counted _ holds)
    | inr (inl (t, d, e, held)) ↦ rw (e, complete_processing) (cancel-Holds t d)
    | inr (inr (t, d, e, held)) ↦ elim (Bool-cases (is_completed d.status)) [
      | inl c ↦ rw (e, complete_processing, c) holds
      | inr c ↦
          rw (e, complete_processing, c) (counted _ (finish-Holds t d models payload held own))
    ]
  ]

-- A run of `process_document` leaves the row, the chunks and the extraction of every other document
-- as they were, if the sessions that commit between its transactions do.
pub process_document-Holds :
    (p : Pipeline) (sc : Schedule) (document_id task_id j : ℕ) (row : Option Document)
    (chunks : List Chunk) (extractions : List Extraction) (desk : Desk)
    → j ≢ document_id
    → IsPolite (Holds j row chunks extractions) sc
    → Holds j row chunks extractions desk
    → Holds j row chunks extractions (process_document p sc document_id task_id desk).1
process_document-Holds p sc k i j row chunks extractions desk other polite holds =
    process_document-keeps (Holds j row chunks extractions) p sc polite k i
      (record {
        begun = λ now d h. begin-Holds j row chunks extractions k i other now d h;
        storage = λ now d again h. storage-Holds j row chunks extractions k i other now d h again;
        parse = λ now d code h. parse-Holds j row chunks extractions k i other now d h code;
        processing =
            λ now d again h. processing-Holds j row chunks extractions k i other now d h again;
        completed = λ now d models payload own h.
            complete-Holds j row chunks extractions k i other now d h models payload own;
        counted = λ m d h. counted m h;
      })
      desk holds
