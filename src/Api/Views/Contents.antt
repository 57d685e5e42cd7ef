-- ===== src/Api/Views/Contents.antt =====
-- main.py with jobs.py: what a client reads after a run of the worker and after a deletion.
use evidencedesk.Prelude.{
  ℕ, ◌≡◌, subst, refl, ◌∙◌, true, false, none, some, List, length, sort, length-sort, is_some,
}
use evidencedesk.Auth.{UserPrincipal}
use evidencedesk.Db.{Document, Chunk, Desk}
use evidencedesk.Db.Rows.{find_document, chunks_of}
use evidencedesk.Db.Sound.{IsSound}
use evidencedesk.Worker.Transactions.{JobResult}
use evidencedesk.Worker.Stages.{Pipeline}
use evidencedesk.Worker.Run.{Schedule, process_document}
use evidencedesk.Worker.Reports.{Reports}
use evidencedesk.Worker.Reports.Run.{process_document-Reports}
use evidencedesk.Worker.Interleaving.{IsPolite, process_document-IsSound}
use evidencedesk.Api.Responses.{Detail, reply, refused}
use evidencedesk.Api.Delete.{delete_document}
use evidencedesk.Api.Delete.Soundness.{delete_document_removes}
use evidencedesk.Api.Views.{earlier, get_document, get_document_content}

module _ (document_id : ℕ) (principal : UserPrincipal) (correlation_id : ℕ) (desk : Desk) where
  content_of_live :
      (d : Document)
      → find_document document_id desk.documents ≡ some d
      → is_some d.deleted_at ≡ false
      → (get_document_content document_id principal correlation_id desk).0
        ≡ reply 200 (sort earlier (chunks_of document_id desk.chunks))
  unfolding get_document_content
  content_of_live d e live = rw (e, live) refl

-- After a run that returns `completed` with a number of chunks, the content of the document is that
-- many chunks, if the tables were sound and the other sessions keep them so.
pub completed_content :
    (p : Pipeline) (sc : Schedule) (document_id task_id : ℕ) (principal : UserPrincipal)
    (correlation_id n : ℕ) (desk : Desk)
    → IsPolite IsSound sc
    → IsSound desk
    → (process_document p sc document_id task_id desk).0 ≡ JobResult.completed n
    → (chunks : List Chunk) × ((get_document_content document_id principal correlation_id
          (process_document p sc document_id task_id desk).1).0
        ≡ reply 200 chunks)
      × (length chunks ≡ n)
completed_content p sc document_id task_id principal correlation_id n desk polite s done =
    let after = (process_document p sc document_id task_id desk).1 in
    let told : Reports task_id document_id (JobResult.completed n) after =
      subst (λ r. Reports task_id document_id r after) done
        (process_document-Reports p sc document_id task_id desk) in
    let sound = process_document-IsSound p sc document_id task_id desk polite s in
    let live : is_some told.0.d.deleted_at ≡ false =
      sound.marked document_id told.0.d told.0.document_row ∙ rw told.0.document_status refl in
    (
      sort earlier (chunks_of document_id after.chunks),
      content_of_live document_id principal correlation_id after told.0.d told.0.document_row live,
      length-sort earlier (chunks_of document_id after.chunks) ∙ told.1,
    )

-- A document that was just deleted can no longer be read: its view and its content are refused with
-- 404, and reading its content changes nothing.
pub deleted_is_hidden :
    (document_id : ℕ) (principal reader : UserPrincipal) (correlation_id now later : ℕ)
    (desk : Desk) (d : Document)
    → find_document document_id desk.documents ≡ some d
    → d.deleted_at ≡ none
    → let desk' = (delete_document document_id principal correlation_id now true desk).1 in
      (get_document document_id desk' ≡ refused 404 Detail.document_not_found)
      × (get_document_content document_id reader later desk'
          ≡ (refused 404 Detail.document_not_found, desk'))
unfolding get_document get_document_content
deleted_is_hidden document_id principal reader correlation_id now later desk d e live =
    let row = (delete_document_removes document_id principal correlation_id now desk d e live).1 in
    (rw row refl, rw row refl)
