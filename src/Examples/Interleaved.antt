-- ===== src/Examples/Interleaved.antt =====
-- The theorems on the API and the worker together: an upload, then a deletion or a run.
use evidencedesk.Prelude.{◌≡◌, refl, true, subst, some, []}
use evidencedesk.Db.Table.{find}
use evidencedesk.Db.Rows.{find_document, find_task, chunks_of, extractions_of}
use evidencedesk.Db.Sound.{Mirrors}
use evidencedesk.Api.Delete.{deleted_document, delete_document}
use evidencedesk.Api.Delete.Soundness.{delete_document_removes}
use evidencedesk.System.{Step, Reach, here, next}
use evidencedesk.System.Safety.{deleted_leaves_nothing, states_agree}
use evidencedesk.Examples.{
  ana, empty_desk, empty_desk-IsEmpty, document, task, waiting, digest, settings, request, world,
  world-IsPolite, world-IsFresh, uploaded,
}

waiting-Reach : Reach digest empty_desk waiting
waiting-Reach =
    subst (Reach digest empty_desk) uploaded
      (next here (Step.upload settings request world empty_desk world-IsFresh world-IsPolite))

waiting_document : find_document 7 waiting.documents ≡ some document
unfolding find_document find
waiting_document = refl

waiting_task : find_task 8 waiting.tasks ≡ some task
unfolding find_task find
waiting_task = refl

deleted_leaves_nothing_example :
    let desk = (delete_document 7 ana 99 5000 true waiting).1 in
    (chunks_of 7 desk.chunks ≡ []) × (extractions_of 7 desk.extractions ≡ [])
deleted_leaves_nothing_example =
    deleted_leaves_nothing digest empty_desk (delete_document 7 ana 99 5000 true waiting).1 7
      (deleted_document 5000 document) empty_desk-IsEmpty
      (next waiting-Reach (Step.delete 7 ana 99 5000 true waiting))
      (delete_document_removes 7 ana 99 5000 waiting document waiting_document refl).1 refl

states_agree_example : Mirrors task document
states_agree_example =
    states_agree digest empty_desk waiting 8 task document empty_desk-IsEmpty waiting-Reach
      waiting_task waiting_document
