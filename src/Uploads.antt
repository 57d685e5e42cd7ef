-- ===== src/Uploads.antt =====
-- apps/api/evidencedesk_api/uploads.py, `validate_upload`, and `build_storage_key` of storage.py.
-- `hashlib.sha256` is the parameter `sha256`, from the bytes to the number that the digest spells.
pub mod Accepted
pub mod Acceptable
use evidencedesk.Prelude.{
  ℕ, Text, Bytes, Bool, true, false, Option, none, some, List, [], ◌∷◌, ◌&&◌, ◌||◌, ltb,
  if◌then◌else◌, codes, length, not,
}
use evidencedesk.Db.{MediaType, Suffix, StorageKey}
use evidencedesk.Python.Strings.{strip, replace, contains, same, starts_with, lower, is_blank}
use evidencedesk.Python.PosixPath.{name, suffix}
use evidencedesk.Python.Utf8.{decode}

-- The code of an `UploadRejected`.
pub data Rejection : Type 0 where
  empty_file file_too_large unsupported_type invalid_signature invalid_text : Rejection

pub record ValidatedUpload : Type 0 where
  pub safe_filename : Text
  pub media_type : MediaType
  pub sha256 : ℕ
  pub content : Bytes

pub data Verdict : Type 0 where
  accepted : ValidatedUpload → Verdict
  rejected : Rejection → Verdict

-- A key of `_MEDIA_TYPES`.
unfoldable pub known_suffix : Text → Option Suffix
unfolding same
known_suffix s =
    if same s (codes ".pdf")
    then some Suffix.pdf
    else if same s (codes ".txt")
    then some Suffix.txt
    else if same s (codes ".md")
    then some Suffix.md
    else none

abbrev pub media_of : Suffix → MediaType
media_of Suffix.pdf = MediaType.application_pdf
media_of Suffix.txt = MediaType.text_plain
media_of Suffix.md = MediaType.text_markdown

-- The content types that `_MEDIA_TYPES` lets a client declare for a suffix.
unfoldable pub declarable : Suffix → Text → Bool
unfolding same
declarable Suffix.pdf t = same t (codes "application/pdf")
declarable Suffix.txt t = same t (codes "text/plain") || same t (codes "application/octet-stream")
declarable Suffix.md t =
    same t (codes "text/markdown")
    || same t (codes "text/plain")
    || same t (codes "application/octet-stream")

unfoldable pub safe_filename : Text → Text
unfolding name replace
safe_filename filename = name (replace 0x5c b'/' filename)

unfoldable pub suffix_of : Text → Option Suffix
unfolding known_suffix lower suffix
suffix_of safe = known_suffix (lower (suffix safe))

-- The text passes, or the code of its rejection.
unfoldable pub check_text : Option Text → Option Rejection
unfolding contains is_blank
check_text none = some Rejection.invalid_text
check_text (some decoded) =
    if contains 0 decoded || is_blank decoded then some Rejection.invalid_text else none

unfoldable pub check_content : Suffix → Bytes → Option Rejection
unfolding starts_with check_text decode
check_content Suffix.pdf content =
    if starts_with content (codes "%PDF-") then none else some Rejection.invalid_signature
check_content Suffix.txt content = check_text (decode content)
check_content Suffix.md content = check_text (decode content)

module _ (sha256 : Bytes → ℕ) where
  abbrev verdict : Text → Bytes → Suffix → Option Rejection → Verdict
  verdict safe content s (some code) = Verdict.rejected code
  verdict safe content s none = Verdict.accepted (record {
    safe_filename = safe;
    media_type = media_of s;
    sha256 = sha256 content;
    content = content;
  })

  abbrev typed : Text → Text → Bytes → Option Suffix → Verdict
  typed safe declared content none = Verdict.rejected Rejection.unsupported_type
  typed safe declared content (some s) =
      if declarable s declared
      then verdict safe content s (check_content s content)
      else Verdict.rejected Rejection.unsupported_type

  abbrev sized : Text → Text → Bytes → Verdict
  sized filename declared content =
      typed (safe_filename filename) declared content (suffix_of (safe_filename filename))

  unfoldable pub validate_upload : Text → Text → Bytes → ℕ → Verdict
  validate_upload filename declared_content_type [] max_bytes =
      Verdict.rejected Rejection.empty_file
  validate_upload filename declared_content_type (b ∷ content) max_bytes =
      if ltb max_bytes (length (b ∷ content))
      then Verdict.rejected Rejection.file_too_large
      else sized filename declared_content_type (b ∷ content)

-- `build_storage_key`: `none` is its `ValueError`.
unfoldable pub build_storage_key : ℕ → Text → Option StorageKey
unfolding suffix_of safe_filename
build_storage_key document_id original_filename =
    elim (suffix_of (safe_filename original_filename)) [
      | none ↦ none
      | some s ↦ some (record { owner = document_id; suffix = s })
    ]
