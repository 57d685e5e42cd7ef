-- ===== src/Examples/Views.antt =====
-- The theorems on what a client reads (main.py), after a run and after a deletion.
use evidencedesk.Prelude.{Bool, true, ◌==◌, ℕ, ◌≡◌, refl, none, some, List, [], ◌∷◌, length}
use evidencedesk.Db.{Chunk, Desk}
use evidencedesk.Db.Table.{find, save}
use evidencedesk.Db.Rows.{find_document, find_task, save_document, save_task}
use evidencedesk.Db.Sound.{IsSound}
use evidencedesk.Storage.{get, same_key}
use evidencedesk.Worker.Transactions.{
  JobResult, locked_task_and_document, begin_processing, complete_processing,
}
use evidencedesk.Worker.Stages.{build, build_all, derive}
use evidencedesk.Worker.Run.{
  process_document, persist, after_derive, after_parse, after_read, after_begin,
}
use evidencedesk.Api.Responses.{Detail, reply, refused}
use evidencedesk.Api.Delete.{delete_document}
use evidencedesk.Api.Views.{get_document, get_document_content}
use evidencedesk.Api.Views.Contents.{completed_content, deleted_is_hidden}
use evidencedesk.Examples.{ana, document, waiting, waiting-IsSound, pipeline, quiet, quiet-IsPolite}

waiting_document : find_document 7 waiting.documents ≡ some document
unfolding find_document find
waiting_document = refl

run_completes : (process_document pipeline quiet 7 8 waiting).0 ≡ JobResult.completed 1
unfolding process_document begin_processing locked_task_and_document find_task find_document find
    save_task save_document save after_begin after_read after_parse after_derive derive build_all
    build persist complete_processing get same_key
run_completes = refl

completed_content_example :
    (chunks : List Chunk) × ((get_document_content 7 ana 99
        (process_document pipeline quiet 7 8 waiting).1).0
      ≡ reply 200 chunks)
    × (length chunks ≡ 1)
completed_content_example =
    completed_content pipeline quiet 7 8 ana 99 1 waiting (quiet-IsPolite IsSound) waiting-IsSound
      run_completes

abbrev page_chunk : ℕ → ℕ → Chunk
page_chunk page ordinal = record {
  id = ordinal;
  document_id = 7;
  page = page;
  section = none;
  ordinal = ordinal;
  text = [];
  embedding = [];
  embedding_model_id = [];
}

abbrev shuffled : Desk
shuffled = record waiting { chunks = page_chunk 2 1 ∷ page_chunk 1 0 ∷ [] }

abbrev on_first_page : Chunk → Bool
on_first_page c = c.page == 1

deleted_is_hidden_example :
    let desk' = (delete_document 7 ana 99 5000 true waiting).1 in
    (get_document 7 desk' ≡ refused 404 Detail.document_not_found)
    × (get_document_content 7 ana 6000 desk' ≡ (refused 404 Detail.document_not_found, desk'))
deleted_is_hidden_example =
    deleted_is_hidden 7 ana ana 99 5000 6000 waiting document waiting_document refl
