-- ===== src/Examples/Work.antt =====
-- The theorems on the worker (jobs.py) at a waiting document.
use evidencedesk.Prelude.{◌≡◌, refl, none, some, [], ◌∷◌, arith}
use evidencedesk.Db.{Document, Chunk, Desk}
use evidencedesk.Db.Table.{find}
use evidencedesk.Db.Rows.{find_document, chunks_of, extractions_of}
use evidencedesk.Db.Sound.{IsSound}
use evidencedesk.Worker.Transactions.{JobResult}
use evidencedesk.Worker.Run.{process_document}
use evidencedesk.Worker.Interleaving.{process_document-IsSound}
use evidencedesk.Worker.Reports.{Reports}
use evidencedesk.Worker.Reports.Run.{process_document-Reports}
use evidencedesk.Worker.Delivery.{deliver, deliver_settles}
use evidencedesk.Worker.Frame.{Holds, process_document-Holds}
use evidencedesk.Worker.Tries.{TriedAtLeast}
use evidencedesk.Examples.{
  document, waiting, waiting-IsSound, pipeline, broken, quiet, quiet-IsPolite,
}

process_document-IsSound_example : IsSound (process_document pipeline quiet 7 8 waiting).1
process_document-IsSound_example =
    process_document-IsSound pipeline quiet 7 8 waiting (quiet-IsPolite IsSound) waiting-IsSound

process_document-Reports_example :
    let (r, desk') = process_document broken quiet 7 8 waiting in Reports 8 7 r desk'
process_document-Reports_example = process_document-Reports broken quiet 7 8 waiting

deliver_settles_example :
    (r : JobResult) × ((deliver broken 7 8 (quiet ∷ quiet ∷ quiet ∷ []) waiting).0 ≡ some r)
deliver_settles_example =
    deliver_settles broken 7 8 quiet quiet quiet waiting (λ n. quiet-IsPolite (TriedAtLeast n 8))
      (λ n. quiet-IsPolite (TriedAtLeast n 8)) (λ n. quiet-IsPolite (TriedAtLeast n 8))

abbrev neighbour : Document
neighbour = record document { id = 9 }

abbrev passage : Chunk
passage = record {
  id = 60;
  document_id = 9;
  page = 1;
  section = none;
  ordinal = 0;
  text = [];
  embedding = [];
  embedding_model_id = [];
}

-- The desk with one more document, which has a chunk
abbrev crowded : Desk
crowded = record waiting { documents = document ∷ neighbour ∷ []; chunks = passage ∷ [] }

crowded-Holds : Holds 9 (some neighbour) (passage ∷ []) [] crowded
unfolding find_document find chunks_of extractions_of
crowded-Holds = record { document = refl; chunks_kept = refl; extractions_kept = refl }

process_document-Holds_example :
    Holds 9 (some neighbour) (passage ∷ []) [] (process_document pipeline quiet 7 8 crowded).1
process_document-Holds_example =
    process_document-Holds pipeline quiet 7 8 9 (some neighbour) (passage ∷ []) [] crowded
      (λ e. omega arith) (quiet-IsPolite (Holds 9 (some neighbour) (passage ∷ []) [])) crowded-Holds
