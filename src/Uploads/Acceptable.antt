-- ===== src/Uploads/Acceptable.antt =====
-- uploads.py: which uploads `validate_upload` accepts, told without its own tests.
use evidencedesk.Prelude.{
  ℕ, ◌≤◌, ◌≡◌, ◌≢◌, ◌↔◌, ◌⊎◌, refl, sym, ap, ◌∙◌, Text, Bytes, Bool, true, false, Option, none,
  some, [], ◌∷◌, ◌++◌, ◌||◌, arith, length, codes, inl, inr, Bool-cases, All, Any, if◌then◌else◌,
}
use evidencedesk.Db.{MediaType, Suffix}
use evidencedesk.Python.Strings.{
  is_space, lstrip, rstrip, strip, is_blank, contains, lower, starts_with, same, same_refl,
  same_sound,
}
use evidencedesk.Python.Search.{starts_with-Occurs}
use evidencedesk.Python.PosixPath.{suffix}
use evidencedesk.Python.Utf8.{decode}
use evidencedesk.Uploads.{
  ValidatedUpload, Verdict, media_of, known_suffix, declarable, safe_filename, suffix_of,
  check_text, check_content, validate_upload,
}
use evidencedesk.Uploads.Accepted.{validate_upload-Passes, Passes-validate_upload}

abbrev pub spelled : Suffix → Text
spelled Suffix.pdf = codes ".pdf"
spelled Suffix.txt = codes ".txt"
spelled Suffix.md = codes ".md"

abbrev pub promised : Suffix → MediaType
promised Suffix.pdf = MediaType.application_pdf
promised Suffix.txt = MediaType.text_plain
promised Suffix.md = MediaType.text_markdown

-- The content types that go with a suffix
abbrev pub IsDeclared : Suffix → Text → Type 0
IsDeclared Suffix.pdf t = t ≡ codes "application/pdf"
IsDeclared Suffix.txt t = (t ≡ codes "text/plain") ⊎ (t ≡ codes "application/octet-stream")
IsDeclared Suffix.md t =
    ((t ≡ codes "text/markdown") ⊎ (t ≡ codes "text/plain"))
    ⊎ (t ≡ codes "application/octet-stream")

-- UTF-8 of a text that has no NUL and some character that is no white space
abbrev pub IsReadable : Bytes → Type 0
IsReadable content =
    (decoded : Text) × (decode content ≡ some decoded)
    × All (λ c. c ≢ 0) decoded
    × Any (λ c. is_space c ≡ false) decoded

-- The content that goes with a suffix
abbrev pub IsContent : Suffix → Bytes → Type 0
IsContent Suffix.pdf content = (rest : Bytes) × (content ≡ codes "%PDF-" ++ rest)
IsContent Suffix.txt content = IsReadable content
IsContent Suffix.md content = IsReadable content

pub record IsAcceptable (sha256 : Bytes → ℕ) (filename declared : Text) (content : Bytes)
    (max_bytes : ℕ) (u : ValidatedUpload) : Type 0 where
  pub kind : Suffix
  pub not_empty : content ≢ []
  pub fits : length content ≤ max_bytes
  pub named : u.safe_filename ≡ safe_filename filename
  pub suffixed : lower (suffix u.safe_filename) ≡ spelled kind
  pub declared_ok : IsDeclared kind declared
  pub content_ok : IsContent kind content
  pub media : u.media_type ≡ promised kind
  pub digest : u.sha256 ≡ sha256 content
  pub kept : u.content ≡ content

same_iff : (s t : Text) → (same s t ≡ true) ↔ (s ≡ t)
same_iff s t = (same_sound s t, λ e. ap (λ r. same r t) e ∙ same_refl t)

or_iff : (a b : Bool) → ((a || b) ≡ true) ↔ ((a ≡ true) ⊎ (b ≡ true))
or_iff true b = (λ e. inl refl, λ h. refl)
or_iff false b = (λ e. inr e, λ h. elim h [ inl e ↦ cc | inr e ↦ e ])

one_of : (t a b : Text) → ((same t a || same t b) ≡ true) ↔ ((t ≡ a) ⊎ (t ≡ b))
one_of t a b = (
  λ e. elim ((or_iff (same t a) (same t b)).0 e) [
    | inl h ↦ inl (same_sound t a h)
    | inr h ↦ inr (same_sound t b h)
  ],
  λ h.
      (or_iff (same t a) (same t b)).1
        (elim h [ inl e ↦ inl ((same_iff t a).1 e) | inr e ↦ inr ((same_iff t b).1 e) ]),
)

declarable_iff : (s : Suffix) (t : Text) → (declarable s t ≡ true) ↔ IsDeclared s t
unfolding declarable
declarable_iff Suffix.pdf t = same_iff t (codes "application/pdf")
declarable_iff Suffix.txt t = one_of t (codes "text/plain") (codes "application/octet-stream")
declarable_iff Suffix.md t =
    let first = one_of t (codes "text/markdown") (codes "text/plain") in
    let third = same_iff t (codes "application/octet-stream") in
    let either =
      or_iff (same t (codes "text/markdown") || same t (codes "text/plain"))
        (same t (codes "application/octet-stream")) in
    (
      λ e. elim (either.0 e) [ inl h ↦ inl (first.0 h) | inr h ↦ inr (third.0 h) ],
      λ h. either.1 (elim h [ inl e ↦ inl (first.1 e) | inr e ↦ inr (third.1 e) ]),
    )

known_suffix_iff : (t : Text) (s : Suffix) → (known_suffix t ≡ some s) ↔ (t ≡ spelled s)
unfolding known_suffix same
known_suffix_iff t s = (known t s, λ e. ap known_suffix e ∙ spelled_known s)
  where
    spelled_known : (s : Suffix) → known_suffix (spelled s) ≡ some s
    spelled_known Suffix.pdf = refl
    spelled_known Suffix.txt = refl
    spelled_known Suffix.md = refl

    spell : (r s : Suffix) → some r ≡ some s → spelled r ≡ spelled s
    spell r s e = ap spelled cc

    known : (t : Text) (s : Suffix) → known_suffix t ≡ some s → t ≡ spelled s
    known t s e = elim (Bool-cases (same t (codes ".pdf"))) [
      | inl a ↦ same_sound t (codes ".pdf") a ∙ spell Suffix.pdf s (rw (a, known_suffix) at e)
      | inr a ↦ elim (Bool-cases (same t (codes ".txt"))) [
        | inl b ↦ same_sound t (codes ".txt") b ∙ spell Suffix.txt s (rw (a, b, known_suffix) at e)
        | inr b ↦ elim (Bool-cases (same t (codes ".md"))) [
          | inl c ↦
              same_sound t (codes ".md") c ∙ spell Suffix.md s (rw (a, b, c, known_suffix) at e)
          | inr c ↦ cc (rw (a, b, c, known_suffix) at e)
        ]
      ]
    ]

-- No NUL
contains_iff : (s : Text) → (contains 0 s ≡ false) ↔ All (λ c. c ≢ 0) s
unfolding contains
contains_iff [] = (λ e. tt, λ h. refl)
contains_iff (c ∷ s) = (
  λ e. (λ z. ground arith, (contains_iff s).0 (ground arith)),
  λ h. ground (arith, h.0, (contains_iff s).1 h.1),
)

-- Some character is no white space.
abbrev HasInk : Text → Type 0
HasInk s = Any (λ c. is_space c ≡ false) s

lstrip-cases : (s : Text) → (lstrip s ≡ []) ⊎ HasInk s
unfolding lstrip
lstrip-cases [] = inl refl
lstrip-cases (c ∷ s) = elim (Bool-cases (is_space c)) [
  | inl e ↦ rw e (elim (lstrip-cases s) [ inl h ↦ inl h | inr h ↦ inr (inr h) ])
  | inr e ↦ inr (inl e)
]

clash : {b : Bool} → b ≡ true → b ≡ false → ⊥
clash e f = cc

lstrip-HasInk : (s : Text) → HasInk s → HasInk (lstrip s)
unfolding lstrip
lstrip-HasInk [] h = h
lstrip-HasInk (c ∷ s) h = go (Bool-cases (is_space c)) h (lstrip-HasInk s)
  where
    go :
        (is_space c ≡ true) ⊎ (is_space c ≡ false)
        → HasInk (c ∷ s)
        → (HasInk s → HasInk (lstrip s))
        → HasInk (lstrip (c ∷ s))
    go (inr e) h later = rw e h
    go (inl e) (inl f) later = absurd (clash e f)
    go (inl e) (inr g) later = rw e (later g)

rstrip-HasInk : (s : Text) → HasInk s → (d : ℕ) × (r : Text) × (rstrip s ≡ d ∷ r)
unfolding rstrip
rstrip-HasInk [] h = elim h [ ]
rstrip-HasInk (c ∷ s) (inl e) = go (rstrip s)
  where
    go :
        (rest : Text)
        → (d : ℕ) × (r : Text) × ((elim rest [
          | [] ↦ if is_space c then [] else c ∷ []
          | d ∷ r ↦ c ∷ d ∷ r
        ])
            ≡ d ∷ r)
    go [] = (c, [], rw e refl)
    go (d ∷ r) = (c, d ∷ r, refl)
rstrip-HasInk (c ∷ s) (inr g) = let (d, r, e) = rstrip-HasInk s g in (c, d ∷ r, rw e refl)

is_blank_iff : (s : Text) → (is_blank s ≡ false) ↔ HasInk s
unfolding is_blank strip
is_blank_iff s = (
  λ e. elim (lstrip-cases s) [
    | inr h ↦ h
    | inl h ↦ absurd (clash (rw (is_blank, strip, h, rstrip) refl) e)
  ],
  λ h. let (d, r, e) = rstrip-HasInk (lstrip s) (lstrip-HasInk s h) in rw (is_blank, strip, e) refl,
)

check_text_iff :
    (o : Option Text)
    → (check_text o ≡ none)
      ↔ ((decoded : Text) × (o ≡ some decoded) × All (λ c. c ≢ 0) decoded × HasInk decoded)
unfolding check_text
check_text_iff none = (λ e. cc, λ (decoded, e, free, inked). cc)
check_text_iff (some decoded) = (
  λ e. (
    decoded,
    refl,
    (contains_iff decoded).0 (ground arith),
    (is_blank_iff decoded).0 (ground arith),
  ),
  λ (other, equal, free, inked).
      let here : other ≡ decoded = cc in
      let no_nul = (contains_iff other).1 free in
      let not_blank = (is_blank_iff other).1 inked in rw (← here) (rw (no_nul, not_blank) refl),
)

starts_with-append : (t rest : Text) → starts_with (t ++ rest) t ≡ true
unfolding starts_with
starts_with-append [] rest = refl
starts_with-append (c ∷ t) rest = ground (arith, starts_with-append t rest)

check_content_iff :
    (s : Suffix) (content : Bytes) → (check_content s content ≡ none) ↔ IsContent s content
unfolding check_content
check_content_iff Suffix.txt content = check_text_iff (decode content)
check_content_iff Suffix.md content = check_text_iff (decode content)
check_content_iff Suffix.pdf content = (
  λ e. starts_with-Occurs (codes "%PDF-") content (passed e),
  λ (rest, e).
      rw (ap (λ c. starts_with c (codes "%PDF-")) e ∙ starts_with-append (codes "%PDF-") rest) refl,
)
  where
    passed : check_content Suffix.pdf content ≡ none → starts_with content (codes "%PDF-") ≡ true
    passed e = ground arith

media_promised : (s : Suffix) → media_of s ≡ promised s
media_promised Suffix.pdf = refl
media_promised Suffix.txt = refl
media_promised Suffix.md = refl

module _ (sha256 : Bytes → ℕ) (filename declared : Text) (max_bytes : ℕ) where
  -- An upload is accepted exactly if it is not empty and not too large, the suffix of its safe filename is
  -- `.pdf`, `.txt` or `.md` in some case, its content type is one of those that go with the suffix,
  -- and its content begins with `%PDF-` or is UTF-8 without NUL and not all white space; it is then
  -- returned unchanged under its safe filename, with the media type of its suffix and its own digest.
  pub validate_upload_iff :
      (content : Bytes) (u : ValidatedUpload)
      → (validate_upload sha256 filename declared content max_bytes ≡ Verdict.accepted u)
        ↔ IsAcceptable sha256 filename declared content max_bytes u
  unfolding suffix_of
  validate_upload_iff content u = (
    λ e.
        let ok = validate_upload-Passes sha256 filename declared max_bytes content u e in
        record {
          kind = ok.suffix_known;
          not_empty = ok.not_empty;
          fits = ok.fits;
          named = ok.named;
          suffixed =
              (known_suffix_iff (lower (suffix u.safe_filename)) ok.suffix_known).0 ok.suffixed;
          declared_ok = (declarable_iff ok.suffix_known declared).0 ok.declared_ok;
          content_ok = (check_content_iff ok.suffix_known content).0 ok.content_ok;
          media = ok.media ∙ media_promised ok.suffix_known;
          digest = ok.digest;
          kept = ok.kept;
        },
    λ h. Passes-validate_upload sha256 filename declared max_bytes content u (record {
      suffix_known = h.kind;
      not_empty = h.not_empty;
      fits = h.fits;
      named = h.named;
      suffixed = (known_suffix_iff (lower (suffix u.safe_filename)) h.kind).1 h.suffixed;
      declared_ok = (declarable_iff h.kind declared).1 h.declared_ok;
      content_ok = (check_content_iff h.kind content).1 h.content_ok;
      media = h.media ∙ sym (media_promised h.kind);
      digest = h.digest;
      kept = h.kept;
    }),
  )
