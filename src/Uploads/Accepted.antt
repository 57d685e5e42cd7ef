-- ===== src/Uploads/Accepted.antt =====
-- uploads.py and storage.py: what an accepted upload is known to be.
use evidencedesk.Prelude.{
  ℕ, ◌≤◌, ◌≡◌, ◌≢◌, refl, sym, ap, ◌∙◌, Text, Bytes, true, false, none, some, [], ◌∷◌, arith,
  length, Option-cases, inl, inr,
}
use evidencedesk.Db.{Suffix}
use evidencedesk.Python.Strings.{replace, contains}
use evidencedesk.Python.PosixPath.{name, name-name, contains-name, contains-name_others}
use evidencedesk.Uploads.{
  ValidatedUpload, Verdict, media_of, declarable, safe_filename, suffix_of, check_content,
  validate_upload, build_storage_key,
}

-- The tests of `validate_upload` that an accepted upload passed
pub record Passes (sha256 : Bytes → ℕ) (filename declared : Text) (content : Bytes) (max_bytes : ℕ)
    (u : ValidatedUpload) : Type 0 where
  pub suffix_known : Suffix
  pub not_empty : content ≢ []
  pub fits : length content ≤ max_bytes
  pub named : u.safe_filename ≡ safe_filename filename
  pub suffixed : suffix_of u.safe_filename ≡ some suffix_known
  pub declared_ok : declarable suffix_known declared ≡ true
  pub content_ok : check_content suffix_known content ≡ none
  pub media : u.media_type ≡ media_of suffix_known
  pub digest : u.sha256 ≡ sha256 content
  pub kept : u.content ≡ content

module _ (sha256 : Bytes → ℕ) (filename declared : Text) (max_bytes : ℕ) where
  pub validate_upload-Passes :
      (content : Bytes) (u : ValidatedUpload)
      → validate_upload sha256 filename declared content max_bytes ≡ Verdict.accepted u
      → Passes sha256 filename declared content max_bytes u
  unfolding validate_upload
  validate_upload-Passes [] u h = cc
  validate_upload-Passes (b ∷ content) u h =
      elim (Option-cases (suffix_of (safe_filename filename))) [
        | inl e ↦ ground arith
        | inr (s, e) ↦ record {
          suffix_known = s;
          not_empty = λ p. cc;
          fits = ground arith;
          named = ground arith;
          suffixed = ground arith;
          declared_ok = ground arith;
          content_ok = ground arith;
          media = ground arith;
          digest = ground arith;
          kept = ground arith;
        }
      ]

  pub Passes-validate_upload :
      (content : Bytes) (u : ValidatedUpload)
      → Passes sha256 filename declared content max_bytes u
      → validate_upload sha256 filename declared content max_bytes ≡ Verdict.accepted u
  unfolding validate_upload
  Passes-validate_upload [] u h = absurd (h.not_empty refl)
  Passes-validate_upload (b ∷ content) u h =
      let known : suffix_of (safe_filename filename) ≡ some h.suffix_known =
        rw (sym h.named) h.suffixed in
      ground (arith, known, h.fits, h.named, h.declared_ok, h.content_ok, h.media, h.digest, h.kept)

contains-replace : (a b : ℕ) (s : Text) → a ≢ b → contains a (replace a b s) ≡ false
unfolding contains replace
contains-replace a b [] ne = refl
contains-replace a b (c ∷ s) ne = ground (arith, contains-replace a b s ne)

replace-free : (a b : ℕ) (s : Text) → contains a s ≡ false → replace a b s ≡ s
unfolding contains replace
replace-free a b [] h = refl
replace-free a b (c ∷ s) h = ground (arith, replace-free a b s)

-- A safe filename holds neither kind of separator.
pub safe_filename_separators :
    (filename : Text)
    → (contains b'/' (safe_filename filename) ≡ false)
      × (contains 0x5c (safe_filename filename) ≡ false)
unfolding safe_filename
safe_filename_separators filename = (
  contains-name (replace 0x5c b'/' filename),
  contains-name_others 0x5c (replace 0x5c b'/' filename)
      (contains-replace 0x5c b'/' filename (omega arith)),
)

safe_filename-safe_filename :
    (filename : Text) → safe_filename (safe_filename filename) ≡ safe_filename filename
safe_filename-safe_filename filename =
    unfold safe_filename in
    (ap name (
        replace-free 0x5c b'/' (name (replace 0x5c b'/' filename))
          (unfold safe_filename in (safe_filename_separators filename).1))
      ∙ name-name (replace 0x5c b'/' filename))

-- Every accepted upload has a storage key: under its document's own directory, with the suffix that
-- goes with its media type. So the `ValueError` of `build_storage_key` never leaves an upload.
pub build_storage_key-accepted :
    (sha256 : Bytes → ℕ) (filename declared : Text) (content : Bytes) (max_bytes document_id : ℕ)
    (u : ValidatedUpload)
    → validate_upload sha256 filename declared content max_bytes ≡ Verdict.accepted u
    → (s : Suffix) × (build_storage_key document_id u.safe_filename
        ≡ some (record { owner = document_id; suffix = s }))
      × (u.media_type ≡ media_of s)
unfolding build_storage_key
build_storage_key-accepted sha256 filename declared content max_bytes document_id u h =
    let ok = validate_upload-Passes sha256 filename declared max_bytes content u h in
    let same_name : safe_filename u.safe_filename ≡ u.safe_filename =
      ap safe_filename ok.named ∙ safe_filename-safe_filename filename ∙ sym ok.named in
    (ok.suffix_known, ground (arith, same_name, ok.suffixed), ok.media)
