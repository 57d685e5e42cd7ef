-- ===== src/Processing/Pages.antt =====
-- processing.py: the pages that `parse_document` gives.
use evidencedesk.Prelude.{
  ℕ, subst, suc, ◌+◌, ◌≤◌, ◌≡◌, refl, ap, Text, Bytes, true, Option, none, some, List, [], ◌∷◌,
  ◌++◌, arith, ltb, ◌==◌, length, length-append, Bool-cases, inl, inr, if◌then◌else◌,
}
use evidencedesk.Db.{ErrorCode, MediaType}
use evidencedesk.Python.Strings.{strip}
use evidencedesk.Python.Lines.{split_lines}
use evidencedesk.Python.Utf8.{decode}
use evidencedesk.Processing.{Attempt, value, parse_error, exception, Block, ParsedPage, ◌>>=◌}
use evidencedesk.Processing.Chunking.{is_empty}
use evidencedesk.Processing.Pdf.{
  Limits, Call, gives, out_of_resources, malformed, PdfFile, Fate, is_broken, PdfHost, called,
  pdf_pages, parse_pdf_pages, reported, pdf_parser_child, after_poll, parse_pdf_isolated,
}
use evidencedesk.Processing.Parse.{
  Markdown, flush, flush_into, page_of, turn_page, start_section, add_line, markdown_step,
  markdown_loop, empty_markdown, closed, parse_markdown, heading, logical_pages, split_gaps,
  parse_plain, some_text, check_some_text, pages_of_text, parse_text, parse_document,
}

-- The pages are numbered from `n` on.
abbrev pub IsPaged : ℕ → List ParsedPage → Type 0
IsPaged n [] = Unit
IsPaged n (page ∷ rest) = (page.page ≡ n) × IsPaged (n + 1) rest

IsPaged-append :
    (n : ℕ) (pages others : List ParsedPage)
    → IsPaged n pages
    → IsPaged (n + length pages) others
    → IsPaged n (pages ++ others)
IsPaged-append n [] others h k = rw (← plus_zero n) at k
  where
    plus_zero : (m : ℕ) → m ≡ m + 0
    plus_zero m = omega arith
IsPaged-append n (page ∷ pages) others h k =
    (h.0, IsPaged-append (n + 1) pages others h.1 (subst (λ m. IsPaged m others) (omega arith) k))

-- The pages that were turned are numbered from 1 on, up to the page that is being collected.
record IsCollecting (m : Markdown) : Type 0 where
  paged : IsPaged 1 m.pages
  counted : m.page_number ≡ 1 + length m.pages

flush_into-IsCollecting :
    (m : Markdown) (paragraph : List Text) → IsCollecting m → IsCollecting (flush_into m paragraph)
flush_into-IsCollecting m [] c = c
flush_into-IsCollecting m (line ∷ rest) c = record { paged = c.paged; counted = c.counted }

turn_page-IsCollecting :
    (m : Markdown) (blocks : List Block) → IsCollecting m → IsCollecting (turn_page m blocks)
turn_page-IsCollecting m [] c = c
turn_page-IsCollecting m (block ∷ rest) c = record {
  paged = IsPaged-append 1 m.pages _ c.paged (c.counted, tt);
  counted = omega (
    arith,
    c.counted,
    length-append m.pages (record { page = m.page_number; blocks = block ∷ rest } ∷ []),
  );
}

start_section-IsCollecting :
    (level : ℕ) (title : Text) (m : Markdown)
    → IsCollecting m
    → IsCollecting (start_section level title m)
start_section-IsCollecting level title m c = elim (Bool-cases (level == 2)) [
  | inl e ↦
      let t = turn_page-IsCollecting m m.blocks c in
      rw e (record { paged = t.paged; counted = t.counted })
  | inr e ↦ rw e (record { paged = c.paged; counted = c.counted })
]

add_line-IsCollecting :
    (m : Markdown) (line : Text) (h : Option (ℕ × Text))
    → IsCollecting m
    → IsCollecting (add_line m line h)
add_line-IsCollecting m line (some (level, title)) c =
    start_section-IsCollecting level (strip title) (flush m)
      (flush_into-IsCollecting m m.paragraph c)
add_line-IsCollecting m [] none c = flush_into-IsCollecting m m.paragraph c
add_line-IsCollecting m (x ∷ line) none c = record { paged = c.paged; counted = c.counted }

markdown_loop-IsCollecting :
    (m : Markdown) (lines : List Text) → IsCollecting m → IsCollecting (markdown_loop m lines)
unfolding markdown_loop markdown_step
markdown_loop-IsCollecting m [] c = c
markdown_loop-IsCollecting m (line ∷ rest) c =
    markdown_loop-IsCollecting (add_line m (strip line) (heading (strip line))) rest
      (add_line-IsCollecting m (strip line) (heading (strip line)) c)

closed-IsPaged : (m : Markdown) → IsCollecting m → IsPaged 1 (closed m)
closed-IsPaged m c =
    IsPaged-append 1 m.pages (page_of m.page_number m.blocks) c.paged (last m.blocks)
  where
    last : (blocks : List Block) → IsPaged (1 + length m.pages) (page_of m.page_number blocks)
    last [] = tt
    last (block ∷ rest) = (c.counted, tt)

parse_markdown-IsPaged : (text : Text) → IsPaged 1 (parse_markdown text)
unfolding parse_markdown
parse_markdown-IsPaged text =
    let m = markdown_loop empty_markdown (split_lines text) in
    closed-IsPaged (flush m) (
      flush_into-IsCollecting m m.paragraph (
        markdown_loop-IsCollecting empty_markdown (split_lines text)
          (record { paged = tt; counted = omega arith })))

logical_pages-IsPaged : (n : ℕ) (parts : List Text) → IsPaged n (logical_pages n parts)
unfolding logical_pages
logical_pages-IsPaged n [] = tt
logical_pages-IsPaged n (part ∷ rest) = elim (Bool-cases (is_empty (strip part))) [
  | inl e ↦ rw e (logical_pages-IsPaged n rest)
  | inr e ↦ rw e (refl, logical_pages-IsPaged (n + 1) rest)
]

pages_of_text-IsPaged :
    (media_type : MediaType) (text : Text) → IsPaged 1 (pages_of_text media_type text)
unfolding parse_plain
pages_of_text-IsPaged MediaType.text_markdown text = parse_markdown-IsPaged text
pages_of_text-IsPaged MediaType.text_plain text =
    let (part, rest) = split_gaps (length text) text in logical_pages-IsPaged 1 (part ∷ rest)
pages_of_text-IsPaged MediaType.application_pdf text =
    let (part, rest) = split_gaps (length text) text in logical_pages-IsPaged 1 (part ∷ rest)

-- How parsing may end: with pages that are numbered, not too many and not all blank, with the code of
-- a `DocumentParseError`, or, for a PDF file whose child process cannot be started or does not send
-- the whole of its message, with another exception.
abbrev pub Parsed : Fate → MediaType → Limits → Attempt (List ParsedPage) → Type 0
Parsed fate media_type limits (value pages) =
    IsPaged 1 pages × (length pages ≤ limits.max_pages) × (some_text pages ≡ true)
Parsed fate media_type limits (parse_error code) = Unit
Parsed fate media_type limits exception =
    (media_type ≡ MediaType.application_pdf) × (is_broken fate ≡ true)

check_some_text-Parsed :
    (fate : Fate) (media_type : MediaType) (limits : Limits) (pages : List ParsedPage)
    → IsPaged 1 pages
    → length pages ≤ limits.max_pages
    → Parsed fate media_type limits (check_some_text pages)
check_some_text-Parsed fate media_type limits pages paged few =
    elim (Bool-cases (some_text pages)) [ inl e ↦ rw e (paged, few, e) | inr e ↦ rw e tt ]

parse_text-Parsed :
    (fate : Fate) (limits : Limits) (media_type : MediaType) (text : Option Text)
    → Parsed fate media_type limits (parse_text limits media_type text)
parse_text-Parsed fate limits media_type none = tt
parse_text-Parsed fate limits media_type (some text) =
    elim (Bool-cases (ltb limits.max_extracted_chars (length text))) [
      | inl e ↦ rw e tt
      | inr e ↦
          let pages = pages_of_text media_type text in
          elim (Bool-cases (ltb limits.max_pages (length pages))) [
            | inl f ↦ rw (e, f) tt
            | inr f ↦
                rw (e, f)
                  (check_some_text-Parsed fate media_type limits pages
                    (pages_of_text-IsPaged media_type text) (ground arith))
          ]
    ]

-- The pages of a PDF file, one for each that the reader gives
abbrev PdfPaged : ℕ → ℕ → Attempt (List ParsedPage) → Type 0
PdfPaged n count (value pages) = IsPaged n pages × (length pages ≡ count)
PdfPaged n count (parse_error code) = Unit
PdfPaged n count exception = Unit

add_page-PdfPaged :
    (n count : ℕ) (page : ParsedPage) (others : Attempt (List ParsedPage))
    → page.page ≡ n
    → PdfPaged (n + 1) count others
    → PdfPaged n (suc count) (others >>= λ pages. value (page ∷ pages))
add_page-PdfPaged n count page (value pages) e h = ((e, h.0), ap (λ k. suc k) h.1)
add_page-PdfPaged n count page (parse_error code) e h = tt
add_page-PdfPaged n count page exception e h = tt

pdf_pages-PdfPaged :
    (max_chars n read : ℕ) (texts : List (Call Text))
    → PdfPaged n (length texts) (pdf_pages max_chars n read texts)
unfolding pdf_pages
pdf_pages-PdfPaged max_chars n read [] = (tt, refl)
pdf_pages-PdfPaged max_chars n read (gives text ∷ rest) =
    elim (Bool-cases (ltb max_chars (read + length (strip text)))) [
      | inl e ↦ rw e tt
      | inr e ↦ rw e (
          add_page-PdfPaged n (length rest) _ _ refl
            (pdf_pages-PdfPaged max_chars (n + 1) (read + length (strip text)) rest))
    ]
pdf_pages-PdfPaged max_chars n read (out_of_resources ∷ rest) = tt
pdf_pages-PdfPaged max_chars n read (malformed ∷ rest) = tt

-- What the child is left with; `exception` is still `MemoryError` or `OSError`.
abbrev ChildParsed : Limits → Attempt (List ParsedPage) → Type 0
ChildParsed limits (value pages) = IsPaged 1 pages × (length pages ≤ limits.max_pages)
ChildParsed limits (parse_error code) = Unit
ChildParsed limits exception = Unit

few_pages :
    (limits : Limits) (count : ℕ) (pages : Attempt (List ParsedPage))
    → count ≤ limits.max_pages
    → PdfPaged 1 count pages
    → ChildParsed limits pages
few_pages limits count (value pages) few h = (h.0, omega (arith, h.1))
few_pages limits count (parse_error code) few h = tt
few_pages limits count exception few h = tt

parse_pdf_pages-ChildParsed :
    (host : PdfHost) (limits : Limits) (content : Bytes)
    → ChildParsed limits (parse_pdf_pages host limits content)
unfolding parse_pdf_pages
parse_pdf_pages-ChildParsed host limits content = go (host.read content)
  where
    go :
        (file : Call PdfFile)
        → ChildParsed limits (
            called file λ (file : PdfFile).
              if file.is_encrypted
              then parse_error ErrorCode.encrypted_pdf
              else if ltb limits.max_pages (length file.page_texts)
              then parse_error ErrorCode.too_many_pages
              else pdf_pages limits.max_extracted_chars 1 0 file.page_texts)
    go out_of_resources = tt
    go malformed = tt
    go (gives file) = elim (Bool-cases file.is_encrypted) [
      | inl e ↦ rw e tt
      | inr e ↦ elim (Bool-cases (ltb limits.max_pages (length file.page_texts))) [
        | inl f ↦ rw (e, f) tt
        | inr f ↦
            rw (e, f)
              (few_pages limits (length file.page_texts) _ (ground arith)
                (pdf_pages-PdfPaged limits.max_extracted_chars 1 0 file.page_texts))
      ]
    ]

received-Parsed :
    (limits : Limits) (pages : Attempt (List ParsedPage)) (fate : Fate)
    → ChildParsed limits pages
    → Parsed fate MediaType.application_pdf limits
        (after_poll fate (reported pages) >>= check_some_text)
received-Parsed limits pages Fate.unstarted h = (refl, refl)
received-Parsed limits pages Fate.silent h = tt
received-Parsed limits pages Fate.closed h = tt
received-Parsed limits pages Fate.cut_short h = (refl, refl)
received-Parsed limits (value pages) Fate.answers h =
    check_some_text-Parsed Fate.answers MediaType.application_pdf limits pages h.0 h.1
received-Parsed limits (parse_error code) Fate.answers h = tt
received-Parsed limits exception Fate.answers h = tt

-- Whatever the file is and whatever becomes of the child process, `parse_document` ends with pages that
-- are numbered from 1 on, at most as many as allowed and not all blank, or with the code of a
-- `DocumentParseError`. Another exception leaves it only for a PDF file, and only where the pipe or the
-- child process cannot be made or the message of the child is cut short.
pub parse_document-Parsed :
    (host : PdfHost) (limits : Limits) (content : Bytes) (media_type : MediaType)
    → Parsed host.fate media_type limits (parse_document host limits content media_type)
unfolding parse_document parse_pdf_isolated pdf_parser_child
parse_document-Parsed host limits content MediaType.application_pdf =
    elim (Bool-cases host.limits_apply) [
      | inl e ↦ rw e (
          received-Parsed limits (parse_pdf_pages host limits content) host.fate
            (parse_pdf_pages-ChildParsed host limits content))
      | inr e ↦
          rw e (received-Parsed limits (parse_error ErrorCode.pdf_resource_limit) host.fate tt)
    ]
parse_document-Parsed host limits content MediaType.text_plain =
    parse_text-Parsed host.fate limits MediaType.text_plain (decode content)
parse_document-Parsed host limits content MediaType.text_markdown =
    parse_text-Parsed host.fate limits MediaType.text_markdown (decode content)
