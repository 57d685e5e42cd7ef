-- ===== src/Examples/Shown.antt =====
-- The theorems on the extractions and the counts that the API shows, at a desk with one completed
-- document.
use evidencedesk.Prelude.{
  ◌≡◌, refl, true, false, some, List, [], ◌∷◌, codes, All, select, length, sort, insert,
}
use evidencedesk.Json.{pos, Json, end, field}
use evidencedesk.Db.{DocumentStatus, Desk}
use evidencedesk.Db.Table.{find}
use evidencedesk.Db.Rows.{find_document}
use evidencedesk.Trust.{TextHost}
use evidencedesk.Trust.Sanitize.{sanitize_extraction_payload, sanitize_document_output}
use evidencedesk.Api.Responses.{reply}
use evidencedesk.Api.Extraction.{
  ExtractionView, rows_from, add_view, views_of, get_dossier_extraction,
}
use evidencedesk.Api.Extraction.Safety.{IsShown, get_dossier_extraction-IsShown}
use evidencedesk.Api.Status.{Status, admin_status, count_at, is_counted, admin_status_counts}
use evidencedesk.Examples.{ana, empty_desk, document}

abbrev host : TextHost
host = record { search = λ p s. false; is_format = λ c. false; casefold = λ s. s; nfkd = λ s. s }

abbrev desk : Desk
desk = record empty_desk {
  documents = record document { status = DocumentStatus.completed } ∷ [];
  extractions =
      record {
        document_id = 7;
        payload = Json.object (field (codes "total") (Json.integer (pos 3)) end);
      }
      ∷ [];
}

abbrev views : List ExtractionView
views =
    record {
      document_id = 7;
      document_name = codes "a.txt";
      payload = field (codes "total") (Json.integer (pos 3)) end;
    }
    ∷ []

one_shown : (get_dossier_extraction host (λ s t. true) 5 ana 99 desk).0 ≡ reply 200 views
unfolding get_dossier_extraction rows_from views_of add_view find_document find sort insert
    sanitize_extraction_payload sanitize_document_output
one_shown = refl

get_dossier_extraction-IsShown_example : All (IsShown host 5 desk.documents desk.extractions) views
get_dossier_extraction-IsShown_example =
    get_dossier_extraction-IsShown host (λ s t. true) 5 ana 99 desk views one_shown

admin_status_counts_example :
    (status : Status) × (admin_status desk ≡ reply 200 status)
    × (count_at DocumentStatus.completed status.documents
        ≡ some (length (select (is_counted DocumentStatus.completed) desk.documents)))
admin_status_counts_example = admin_status_counts DocumentStatus.completed desk
