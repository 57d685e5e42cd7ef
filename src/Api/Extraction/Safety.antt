-- ===== src/Api/Extraction/Safety.antt =====
-- main.py: whose extractions `get_dossier_extraction` shows.
use evidencedesk.Prelude.{
  ℕ, Text, Bool, true, false, Option, none, some, List, [], ◌∷◌, ◌==◌, ◌&&◌, not, ◌≡◌, refl, arith,
  All, sort, sort-All, and_true, not-true, Option-cases, Bool-cases, inl, inr, is_some, Any,
  All-mono, subst,
}
use evidencedesk.Auth.{UserPrincipal}
use evidencedesk.Json.{Json, Fields}
use evidencedesk.Db.{Document, DocumentStatus, Extraction, Desk}
use evidencedesk.Db.Rows.{find_document, id-find_document}
use evidencedesk.Trust.{TextHost}
use evidencedesk.Trust.Sanitize.{sanitize_extraction_payload}
use evidencedesk.Trust.Sanitized.{FieldsAreClean, sanitize_extraction_payload-IsClean}
use evidencedesk.Api.Responses.{reply}
use evidencedesk.Api.Extraction.{
  ExtractionView, is_completed, is_eligible, rows_from, add_view, views_of, replied, by_filename,
  get_dossier_extraction,
}

-- The extraction is a row, and its document is a row too, of this dossier, completed and not deleted.
pub record IsSource (dossier_id : ℕ) (documents : List Document) (extractions : List Extraction)
    (e : Extraction) (d : Document) : Type 0 where
  listed : Any (λ x. x ≡ e) extractions
  of : find_document e.document_id documents ≡ some d
  placed : d.dossier_id ≡ dossier_id
  completed : d.status ≡ DocumentStatus.completed
  live : d.deleted_at ≡ none

-- What is shown is the payload of such an extraction, sanitized, under the identifier and the filename
-- of that document.
pub record IsView (host : TextHost) (e : Extraction) (d : Document) (v : ExtractionView)
    : Type 0 where
  document_id : v.document_id ≡ e.document_id
  document_name : v.document_name ≡ d.filename
  fields : Fields
  stored : e.payload ≡ Json.object fields
  sanitized : v.payload ≡ sanitize_extraction_payload host fields
  clean : FieldsAreClean host v.payload

abbrev pub IsShown : TextHost → ℕ → List Document → List Extraction → ExtractionView → Type 0
IsShown host dossier_id documents extractions v =
    (e : Extraction) × (d : Document) × IsSource dossier_id documents extractions e d
    × IsView host e d v

completed_status : (s : DocumentStatus) → is_completed s ≡ true → s ≡ DocumentStatus.completed
completed_status DocumentStatus.completed e = refl
completed_status DocumentStatus.queued e = cc
completed_status DocumentStatus.processing e = cc
completed_status DocumentStatus.failed e = cc
completed_status DocumentStatus.deleted e = cc

no_time : (o : Option ℕ) → is_some o ≡ false → o ≡ none
no_time none e = refl
no_time (some t) e = cc

abbrev RowIsSource : ℕ → List Document → List Extraction → Extraction × Document → Type 0
RowIsSource dossier_id documents extractions (e, d) = IsSource dossier_id documents extractions e d

module _ (dossier_id : ℕ) (documents : List Document) where
  first-IsSource :
      (e : Extraction) (d : Document) (rest : List Extraction)
      → find_document e.document_id documents ≡ some d
      → is_eligible dossier_id d ≡ true
      → IsSource dossier_id documents (e ∷ rest) e d
  first-IsSource e d rest found eligible =
      let (placed, live) =
        and_true (d.dossier_id == dossier_id && is_completed d.status) (not (is_some d.deleted_at))
          eligible in
      let (of, completed) = and_true (d.dossier_id == dossier_id) (is_completed d.status) placed in
      record {
        listed = inl refl;
        of = found;
        placed = ground (arith, of);
        completed = completed_status d.status completed;
        live = no_time d.deleted_at (not-true (is_some d.deleted_at) live);
      }

  later-RowIsSource :
      (e : Extraction) (rest : List Extraction) (row : Extraction × Document)
      → RowIsSource dossier_id documents rest row
      → RowIsSource dossier_id documents (e ∷ rest) row
  later-RowIsSource e rest (x, d) s = record {
    listed = inr s.listed;
    of = s.of;
    placed = s.placed;
    completed = s.completed;
    live = s.live;
  }

  rows_from-RowIsSource :
      (extractions : List Extraction)
      → All
          (RowIsSource dossier_id documents extractions)
          (rows_from dossier_id documents extractions)
  unfolding rows_from
  rows_from-RowIsSource [] = tt
  rows_from-RowIsSource (e ∷ rest) =
      let others =
        All-mono (RowIsSource dossier_id documents rest)
          (RowIsSource dossier_id documents (e ∷ rest)) (rows_from dossier_id documents rest)
          (later-RowIsSource e rest) (rows_from-RowIsSource rest) in
      elim (Option-cases (find_document e.document_id documents)) [
        | inl h ↦ rw h others
        | inr (d, h) ↦ elim (Bool-cases (is_eligible dossier_id d)) [
          | inl k ↦ rw (h, k) (first-IsSource e d rest h k, others)
          | inr k ↦ rw (h, k) others
        ]
      ]

  module _ (extractions : List Extraction) (host : TextHost) where
    add_view-IsShown :
        (e : Extraction) (d : Document) (payload : Json) (rest : Option (List ExtractionView))
        (views : List ExtractionView)
        → e.payload ≡ payload
        → IsSource dossier_id documents extractions e d
        → ((others : List ExtractionView)
            → rest ≡ some others
            → All (IsShown host dossier_id documents extractions) others)
        → add_view host e d payload rest ≡ some views
        → All (IsShown host dossier_id documents extractions) views
    unfolding add_view
    add_view-IsShown e d (Json.object fields) (some rest) views stored source h k =
        subst (All (IsShown host dossier_id documents extractions)) (opened k) (
          (
            e,
            d,
            source,
            record {
              document_id = id-find_document e.document_id documents d source.of;
              document_name = refl;
              fields = fields;
              stored = stored;
              sanitized = refl;
              clean = sanitize_extraction_payload-IsClean host fields;
            },
          ),
          h rest refl,
        )
      where
        opened : {a b : List ExtractionView} → some a ≡ some b → a ≡ b
        opened p = cc
    add_view-IsShown e d (Json.object fields) none views stored source h k = cc
    add_view-IsShown e d Json.null rest views stored source h k = cc
    add_view-IsShown e d (Json.boolean b) rest views stored source h k = cc
    add_view-IsShown e d (Json.integer z) rest views stored source h k = cc
    add_view-IsShown e d (Json.real r) rest views stored source h k = cc
    add_view-IsShown e d (Json.text s) rest views stored source h k = cc
    add_view-IsShown e d (Json.array items) rest views stored source h k = cc

    views_of-IsShown :
        (rows : List (Extraction × Document)) (views : List ExtractionView)
        → All (RowIsSource dossier_id documents extractions) rows
        → views_of host rows ≡ some views
        → All (IsShown host dossier_id documents extractions) views
    unfolding views_of
    views_of-IsShown [] views h k =
        let it : [] ≡ views = cc in
        subst (All (IsShown host dossier_id documents extractions)) it tt
    views_of-IsShown ((e, d) ∷ rest) views (source, h) k =
        add_view-IsShown e d e.payload (views_of host rest) views refl source
          (λ others o. views_of-IsShown rest others h o) k

replied-views :
    (o : Option (List ExtractionView)) (views : List ExtractionView)
    → replied o ≡ reply 200 views
    → o ≡ some views
replied-views none views e = cc
replied-views (some vs) views e = cc

-- Where `get_dossier_extraction` answers, each entry that it shows is the sanitized payload of a stored
-- extraction, under the identifier and the filename of that extraction's own document, which is of
-- the dossier, completed and not deleted; and no string value in it, at any depth, is taken for an
-- instruction.
pub get_dossier_extraction-IsShown :
    (host : TextHost) (before : Text → Text → Bool) (dossier_id : ℕ) (principal : UserPrincipal)
    (correlation_id : ℕ) (desk : Desk) (views : List ExtractionView)
    → (get_dossier_extraction host before dossier_id principal correlation_id desk).0
      ≡ reply 200 views
    → All (IsShown host dossier_id desk.documents desk.extractions) views
unfolding get_dossier_extraction
get_dossier_extraction-IsShown host before dossier_id principal correlation_id desk views e =
    let rows = rows_from dossier_id desk.documents desk.extractions in
    views_of-IsShown dossier_id desk.documents desk.extractions host
      (sort (by_filename before) rows) views
      (sort-All (by_filename before) (RowIsSource dossier_id desk.documents desk.extractions) rows
        (rows_from-RowIsSource dossier_id desk.documents desk.extractions))
      (replied-views (views_of host (sort (by_filename before) rows)) views e)
