-- ===== src/Processing/Pdf.antt =====
-- processing.py: `_parse_pdf_pages`, the child process that runs it, and `_parse_pdf_isolated`. What
-- pypdf and the operating system do is a `PdfHost`.
use evidencedesk.Prelude.{
  ℕ, ◌+◌, Text, Bytes, Bool, true, false, none, List, [], ◌∷◌, ltb, if◌then◌else◌, length,
}
use evidencedesk.Db.{ErrorCode}
use evidencedesk.Python.Strings.{strip}
use evidencedesk.Processing.{Attempt, value, parse_error, exception, ParsedPage, ◌>>=◌}

pub record Limits : Type 0 where
  pub max_pages : ℕ
  pub max_extracted_chars : ℕ

-- How a call of pypdf ends: with a value, with `MemoryError` or `OSError`, or with another exception.
pub data Call (A : Type 0) : Type 0 where
  gives : A → Call A
  out_of_resources malformed : Call A

-- `reader.is_encrypted` and what `extract_text() or ""` does on each page
pub record PdfFile : Type 0 where
  pub is_encrypted : Bool
  pub page_texts : List (Call Text)

-- What the parent meets: a pipe or a process that cannot be made, nothing in time, the end of the
-- pipe, a message that is cut short, for which `recv` raises `OSError`, or the whole message.
pub data Fate : Type 0 where
  unstarted silent closed cut_short answers : Fate

-- The two that `_parse_pdf_isolated` has no handler for
abbrev pub is_broken : Fate → Bool
is_broken Fate.unstarted = true
is_broken Fate.cut_short = true
is_broken _ = false

pub record PdfHost : Type 0 where
  pub read : Bytes → Call PdfFile
  pub limits_apply : Bool
  pub fate : Fate

-- The handlers of `_parse_pdf_pages`
abbrev pub called : {A B : Type 0} → Call A → (A → Attempt B) → Attempt B
called (gives a) f = f a
called out_of_resources f = exception
called malformed f = parse_error ErrorCode.invalid_pdf

abbrev pub add_page : ℕ → Text → List ParsedPage → List ParsedPage
add_page index extracted rest =
    record { page = index; blocks = record { section = none; text = extracted } ∷ [] } ∷ rest

-- The loop over the pages, from page `index` on, `extracted_chars` having been read
unfoldable pub pdf_pages : ℕ → ℕ → ℕ → List (Call Text) → Attempt (List ParsedPage)
unfolding strip
pdf_pages max_chars index extracted_chars [] = value []
pdf_pages max_chars index extracted_chars (page ∷ rest) = called page λ text.
    let others = pdf_pages max_chars (index + 1) (extracted_chars + length (strip text)) rest in
    if ltb max_chars (extracted_chars + length (strip text))
    then parse_error ErrorCode.too_much_extracted_text
    else others >>= λ pages. value (add_page index (strip text) pages)

-- `_parse_pdf_pages`
unfoldable pub parse_pdf_pages : PdfHost → Limits → Bytes → Attempt (List ParsedPage)
unfolding pdf_pages
parse_pdf_pages host limits content = called (host.read content) λ (file : PdfFile).
    if file.is_encrypted
    then parse_error ErrorCode.encrypted_pdf
    else if ltb limits.max_pages (length file.page_texts)
    then parse_error ErrorCode.too_many_pages
    else pdf_pages limits.max_extracted_chars 1 0 file.page_texts

-- The message of `_pdf_parser_child`: `("ok", pages)` or `("error", code)`
pub data Message : Type 0 where
  ok : List ParsedPage → Message
  error : ErrorCode → Message

abbrev pub reported : Attempt (List ParsedPage) → Message
reported (value pages) = Message.ok pages
reported (parse_error code) = Message.error code
reported exception = Message.error ErrorCode.pdf_resource_limit

unfoldable pub pdf_parser_child : PdfHost → Limits → Bytes → Message
unfolding parse_pdf_pages
pdf_parser_child host limits content =
    if host.limits_apply
    then reported (parse_pdf_pages host limits content)
    else Message.error ErrorCode.pdf_resource_limit

abbrev pub received : Message → Attempt (List ParsedPage)
received (Message.ok pages) = value pages
received (Message.error code) = parse_error code

abbrev pub after_poll : Fate → Message → Attempt (List ParsedPage)
after_poll Fate.unstarted m = exception
after_poll Fate.cut_short m = exception
after_poll Fate.silent m = parse_error ErrorCode.pdf_processing_timeout
after_poll Fate.closed m = parse_error ErrorCode.pdf_resource_limit
after_poll Fate.answers m = received m

-- `_parse_pdf_isolated`
unfoldable pub parse_pdf_isolated : PdfHost → Limits → Bytes → Attempt (List ParsedPage)
unfolding pdf_parser_child
parse_pdf_isolated host limits content = after_poll host.fate (pdf_parser_child host limits content)
