-- ===== src/Examples/Handlers.antt =====
-- The theorems on the handlers (main.py), uploads (uploads.py) and tokens (security.py) at one
-- upload and one user.
use evidencedesk.Prelude.{◌≡◌, ◌↔◌, refl, true, false, some, codes}
use evidencedesk.Db.{MediaType, Suffix}
use evidencedesk.Db.Table.{find}
use evidencedesk.Db.Rows.{find_document}
use evidencedesk.Db.Sound.{IsSound}
use evidencedesk.Storage
use evidencedesk.Python.Strings.{
  same, replace, contains, is_blank, lower, starts_with, is_space, lstrip, rstrip, strip,
}
use evidencedesk.Python.PosixPath.{name, suffix, last_dot, last_component, split_on}
use evidencedesk.Python.Utf8.{decode, decode_from}
use evidencedesk.Uploads.{
  ValidatedUpload, Verdict, known_suffix, declarable, safe_filename, suffix_of, check_text,
  check_content, validate_upload, build_storage_key, media_of,
}
use evidencedesk.Uploads.Acceptable.{IsAcceptable, validate_upload_iff}
use evidencedesk.Uploads.Accepted.{safe_filename_separators, build_storage_key-accepted}
use evidencedesk.Api.Responses.{Detail, refused}
use evidencedesk.Api.Upload.{upload_document}
use evidencedesk.Api.Upload.Soundness.{upload_document-IsSound}
use evidencedesk.Api.Delete.{delete_document}
use evidencedesk.Api.Delete.Soundness.{delete_document-IsSound, delete_document_again}
use evidencedesk.System.Safety.{IsEmpty-IsSound}
use evidencedesk.Examples.{
  ana, empty_desk, empty_desk-IsEmpty, content, document, waiting, waiting-IsSound, digest,
  settings, request, world, world-IsPolite, world-IsFresh,
}

upload_document-IsSound_example :
    IsSound (upload_document digest settings request world empty_desk).1
upload_document-IsSound_example =
    upload_document-IsSound digest settings request world world-IsPolite empty_desk
      (IsEmpty-IsSound digest empty_desk empty_desk-IsEmpty) world-IsFresh

delete_document-IsSound_example : IsSound (delete_document 7 ana 99 5000 true waiting).1
delete_document-IsSound_example = delete_document-IsSound 7 ana 99 5000 waiting true waiting-IsSound

waiting_document : find_document 7 waiting.documents ≡ some document
unfolding find_document find
waiting_document = refl

delete_document_again_example :
    let desk' = (delete_document 7 ana 99 5000 true waiting).1 in
    delete_document 7 ana 99 6000 true desk' ≡ (refused 404 Detail.document_not_found, desk')
delete_document_again_example =
    delete_document_again 7 ana 99 5000 6000 waiting document true waiting_document refl

abbrev validated : ValidatedUpload
validated = record {
  safe_filename = codes "a.txt";
  media_type = MediaType.text_plain;
  sha256 = 11;
  content = content;
}

accepted :
    validate_upload digest (codes "b/a.txt") (codes "text/plain") content 20
    ≡ Verdict.accepted validated
unfolding validate_upload safe_filename suffix_of known_suffix declarable check_content check_text
    same replace contains is_blank lower starts_with name suffix decode decode_from last_dot
    last_component split_on is_space lstrip rstrip strip
accepted = refl

validate_upload_iff_example :
    (validate_upload digest (codes "b/a.txt") (codes "text/plain") content 20
      ≡ Verdict.accepted validated)
    ↔ IsAcceptable digest (codes "b/a.txt") (codes "text/plain") content 20 validated
validate_upload_iff_example =
    validate_upload_iff digest (codes "b/a.txt") (codes "text/plain") 20 content validated

safe_filename_separators_example :
    (contains b'/' (safe_filename (codes "../b/a.txt")) ≡ false)
    × (contains 0x5c (safe_filename (codes "../b/a.txt")) ≡ false)
safe_filename_separators_example = safe_filename_separators (codes "../b/a.txt")

build_storage_key-accepted_example :
    (s : Suffix) × (build_storage_key 7 (codes "a.txt") ≡ some (record { owner = 7; suffix = s }))
    × (MediaType.text_plain ≡ media_of s)
build_storage_key-accepted_example =
    build_storage_key-accepted digest (codes "b/a.txt") (codes "text/plain") content 20 7 validated
      accepted
