-- ===== src/Api/Views.antt =====
-- main.py: `list_documents`, `get_document` and `get_document_content`.
pub mod Contents
use evidencedesk.Prelude.{
  ℕ, Bool, true, false, Option, none, some, List, [], ◌∷◌, ◌==◌, ◌&&◌, ◌||◌, not, ltb, leb, select,
  map, sort, if◌then◌else◌, is_some, length,
}
use evidencedesk.Auth.{UserPrincipal}
use evidencedesk.Db.{Document, Dossier, Chunk, Desk, AuditAction, AuditResult, Metadata}
use evidencedesk.Db.Table.{find}
use evidencedesk.Db.Rows.{find_document, chunks_of, add_audit}
use evidencedesk.Api.Responses.{Detail, Response, reply, refused}
use evidencedesk.Api.Upload.{View, view, dossier_key}

-- `.order_by(Document.created_at.desc())`
abbrev pub newer : Document → Document → Bool
newer a b = leb b.created_at a.created_at

abbrev pub is_listed : ℕ → Document → Bool
is_listed dossier_id d = d.dossier_id == dossier_id && not (is_some d.deleted_at)

-- A document has one task, so the outer join gives one row for each.
abbrev pub listed_in : ℕ → Desk → Option Dossier → Response (List View)
listed_in dossier_id desk none = refused 404 Detail.dossier_not_found
listed_in dossier_id desk (some dossier) =
    reply 200 (map (λ d. view d desk) (sort newer (select (is_listed dossier_id) desk.documents)))

unfoldable pub list_documents : ℕ → Desk → Response (List View)
unfolding find
list_documents dossier_id desk =
    listed_in dossier_id desk (find dossier_key dossier_id desk.dossiers)

abbrev shown : Desk → Option Document → Response View
shown desk none = refused 404 Detail.document_not_found
shown desk (some d) =
    if is_some d.deleted_at then refused 404 Detail.document_not_found else reply 200 (view d desk)

unfoldable pub get_document : ℕ → Desk → Response View
get_document document_id desk = shown desk (find_document document_id desk.documents)

-- `.order_by(Chunk.page, Chunk.ordinal)`
abbrev pub earlier : Chunk → Chunk → Bool
earlier a b = ltb a.page b.page || (a.page == b.page && leb a.ordinal b.ordinal)

module _ (document_id : ℕ) (principal : UserPrincipal) (correlation_id : ℕ) where
  abbrev viewed : Desk → List Chunk → Response (List Chunk) × Desk
  viewed desk chunks = (
    reply 200 chunks,
    add_audit
        (record {
          actor_id = some principal.id;
          action = AuditAction.document_content_view;
          document_id = some document_id;
          result = AuditResult.success;
          correlation_id = correlation_id;
          metadata_safe = Metadata.chunk_count (length chunks);
        })
        desk,
  )

  abbrev content_of : Desk → Option Document → Response (List Chunk) × Desk
  content_of desk none = (refused 404 Detail.document_not_found, desk)
  content_of desk (some d) =
      if is_some d.deleted_at
      then (refused 404 Detail.document_not_found, desk)
      else viewed desk (sort earlier (chunks_of document_id desk.chunks))

  unfoldable pub get_document_content : Desk → Response (List Chunk) × Desk
  get_document_content desk = content_of desk (find_document document_id desk.documents)
