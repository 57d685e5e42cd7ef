-- ===== src/Api/Extraction.antt =====
-- main.py: `get_dossier_extraction`. The order of filenames is that of the database; the schema
-- version, which every row has as its default, is left out.
pub mod Safety
use evidencedesk.Prelude.{
  ℕ, Text, Bool, true, false, Option, none, some, List, [], ◌∷◌, ◌==◌, ◌&&◌, not, sort,
  if◌then◌else◌, is_some,
}
use evidencedesk.Auth.{UserPrincipal}
use evidencedesk.Json.{Json, Items, Fields}
use evidencedesk.Db.{Document, DocumentStatus, Extraction, Desk, AuditAction, AuditResult, Metadata}
use evidencedesk.Db.Rows.{find_document, add_audit}
use evidencedesk.Trust.{TextHost}
use evidencedesk.Trust.Sanitize.{sanitize_extraction_payload}
use evidencedesk.Api.Responses.{Response, reply, crashed}

pub record ExtractionView : Type 0 where
  pub document_id : ℕ
  pub document_name : Text
  pub payload : Fields

abbrev pub is_completed : DocumentStatus → Bool
is_completed DocumentStatus.completed = true
is_completed _ = false

-- The condition of the select
abbrev pub is_eligible : ℕ → Document → Bool
is_eligible dossier_id d =
    d.dossier_id == dossier_id && is_completed d.status && not (is_some d.deleted_at)

-- One row of the join
abbrev pub row_of :
    ℕ → Extraction → Option Document → List (Extraction × Document) → List (Extraction × Document)
row_of dossier_id e none rest = rest
row_of dossier_id e (some d) rest = if is_eligible dossier_id d then (e, d) ∷ rest else rest

unfoldable pub rows_from : ℕ → List Document → List Extraction → List (Extraction × Document)
unfolding find_document
rows_from dossier_id documents [] = []
rows_from dossier_id documents (e ∷ rest) =
    row_of dossier_id e (find_document e.document_id documents)
      (rows_from dossier_id documents rest)

unfoldable pub audited : UserPrincipal → ℕ → ℕ → List (Extraction × Document) → Desk → Desk
audited principal correlation_id dossier_id [] desk = desk
audited principal correlation_id dossier_id ((e, d) ∷ rest) desk =
    audited principal correlation_id dossier_id rest (
      add_audit
        (record {
          actor_id = some principal.id;
          action = AuditAction.document_extraction_view;
          document_id = some d.id;
          result = AuditResult.success;
          correlation_id = correlation_id;
          metadata_safe = Metadata.of_dossier dossier_id;
        })
        desk)

-- A payload that is no object has no `items`, which no handler catches.
unfoldable pub add_view :
    TextHost
    → Extraction
    → Document
    → Json
    → Option (List ExtractionView)
    → Option (List ExtractionView)
unfolding sanitize_extraction_payload
add_view host e d (Json.object fields) (some rest) = some (
    record {
      document_id = d.id;
      document_name = d.filename;
      payload = sanitize_extraction_payload host fields;
    }
    ∷ rest)
add_view host e d _ rest = none

unfoldable pub views_of : TextHost → List (Extraction × Document) → Option (List ExtractionView)
unfolding add_view
views_of host [] = some []
views_of host ((e, d) ∷ rest) = add_view host e d e.payload (views_of host rest)

abbrev pub replied : Option (List ExtractionView) → Response (List ExtractionView)
replied none = crashed
replied (some views) = reply 200 views

abbrev pub by_filename : (Text → Text → Bool) → Extraction × Document → Extraction × Document → Bool
by_filename before (e, d) (f, c) = before d.filename c.filename

-- `get_dossier_extraction`
unfoldable pub get_dossier_extraction :
    TextHost
    → (Text → Text → Bool)
    → ℕ
    → UserPrincipal
    → ℕ
    → Desk
    → Response (List ExtractionView) × Desk
unfolding rows_from views_of audited
get_dossier_extraction host before dossier_id principal correlation_id desk =
    let rows = sort (by_filename before) (rows_from dossier_id desk.documents desk.extractions) in
    (replied (views_of host rows), audited principal correlation_id dossier_id rows desk)
