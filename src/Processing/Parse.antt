-- ===== src/Processing/Parse.antt =====
-- processing.py: `_parse_markdown`, the paragraphs of plain text, and `parse_document`.
use evidencedesk.Prelude.{
  ℕ, zero, suc, ◌+◌, Text, Bytes, Bool, false, Option, none, some, List, [], ◌∷◌, ◌++◌, ◌==◌, ◌&&◌,
  ◌||◌, not, ltb, leb, if◌then◌else◌, length,
}
use evidencedesk.Db.{ErrorCode, MediaType}
use evidencedesk.Python.Strings.{is_space, lstrip, strip, is_blank}
use evidencedesk.Python.Utf8.{decode}
use evidencedesk.Python.Lines.{split_lines}
use evidencedesk.Processing.{Attempt, value, parse_error, Block, ParsedPage, ◌>>=◌}
use evidencedesk.Processing.Chunking.{join, is_empty}
use evidencedesk.Processing.Pdf.{Limits, PdfHost, parse_pdf_isolated}

-- The number of `#` that a line starts with, and what follows them.
unfoldable pub hashes : Text → ℕ × Text
hashes [] = (0, [])
hashes (c ∷ s) = let (n, rest) = hashes s in if c == b'#' then (suc n, rest) else (0, c ∷ s)

abbrev titled : ℕ → Text → Text → Option (ℕ × Text)
titled level [] [] = none
titled level (c ∷ after) (d ∷ title) =
    if leb 1 level && leb level 6 && is_space c then some (level, d ∷ title) else none
titled level _ _ = none

-- `re.match(r"^(#{1,6})\s+(.+)$", line)` on a stripped line: the number of `#` and the title.
unfoldable pub heading : Text → Option (ℕ × Text)
unfolding hashes lstrip is_space
heading line = let (level, after) = hashes line in titled level after (lstrip after)

-- The locals of `_parse_markdown`
pub record Markdown : Type 0 where
  pub pages : List ParsedPage
  pub blocks : List Block
  pub section : Option Text
  pub paragraph : List Text
  pub page_number : ℕ

-- `flush`
abbrev pub flush_into : Markdown → List Text → Markdown
flush_into m [] = m
flush_into m (line ∷ rest) = record m {
  blocks = m.blocks ++ record { section = m.section; text = strip (join (line ∷ rest)) } ∷ [];
  paragraph = [];
}

abbrev pub flush : Markdown → Markdown
flush m = flush_into m m.paragraph

-- The page that is being collected, if it has blocks
abbrev pub page_of : ℕ → List Block → List ParsedPage
page_of n [] = []
page_of n (block ∷ rest) = record { page = n; blocks = block ∷ rest } ∷ []

abbrev pub turn_page : Markdown → List Block → Markdown
turn_page m [] = m
turn_page m (block ∷ rest) = record m {
  pages = m.pages ++ record { page = m.page_number; blocks = block ∷ rest } ∷ [];
  blocks = [];
  page_number = m.page_number + 1;
}

abbrev pub enter_section : ℕ → Text → Markdown → Markdown
enter_section level title m = record m {
  section = some title;
  blocks =
      if level == 1
      then m.blocks ++ record { section = some title; text = title } ∷ []
      else m.blocks;
}

abbrev pub start_section : ℕ → Text → Markdown → Markdown
start_section level title m =
    enter_section level title (if level == 2 then turn_page m m.blocks else m)

-- The body of the loop, on a stripped line
abbrev pub add_line : Markdown → Text → Option (ℕ × Text) → Markdown
add_line m line (some (level, title)) = start_section level (strip title) (flush m)
add_line m [] none = flush m
add_line m (c ∷ line) none = record m { paragraph = m.paragraph ++ (c ∷ line) ∷ [] }

unfoldable pub markdown_step : Markdown → Text → Markdown
unfolding strip heading join
markdown_step m raw_line = add_line m (strip raw_line) (heading (strip raw_line))

unfoldable pub markdown_loop : Markdown → List Text → Markdown
unfolding markdown_step
markdown_loop m [] = m
markdown_loop m (line ∷ rest) = markdown_loop (markdown_step m line) rest

abbrev pub empty_markdown : Markdown
empty_markdown = record { pages = []; blocks = []; section = none; paragraph = []; page_number = 1 }

abbrev pub closed : Markdown → List ParsedPage
closed m = m.pages ++ page_of m.page_number m.blocks

-- `_parse_markdown`
unfoldable pub parse_markdown : Text → List ParsedPage
unfolding markdown_loop split_lines join strip
parse_markdown text = closed (flush (markdown_loop empty_markdown (split_lines text)))

-- The text after `\s*\n`, the whitespace being as long as it can be
unfoldable pub after_gap : Text → Option Text
unfolding is_space
after_gap [] = none
after_gap (c ∷ s) =
    let rest = after_gap s in
    if is_space c
    then elim rest [ some r ↦ some r | none ↦ if c == 10 then some s else none ]
    else none

abbrev pub gap_at : ℕ → Text → Option Text
gap_at c s = if c == 10 then after_gap s else none

abbrev pub onward : Option Text → Text → Text
onward none s = s
onward (some r) s = r

abbrev pub cut_gap : Option Text → ℕ → Text × List Text → Text × List Text
cut_gap none c (part, rest) = (c ∷ part, rest)
cut_gap (some r) c (part, rest) = ([], part ∷ rest)

-- `re.split(r"\n\s*\n", text)`: the first part and the others. The fuel is the length of the text.
unfoldable pub split_gaps : ℕ → Text → Text × List Text
unfolding after_gap
split_gaps zero s = (s, [])
split_gaps (suc fuel) [] = ([], [])
split_gaps (suc fuel) (c ∷ s) =
    let gap = gap_at c s in cut_gap gap c (split_gaps fuel (onward gap s))

-- `[part.strip() for part in parts if part.strip()]`, each a page of its own
unfoldable pub logical_pages : ℕ → List Text → List ParsedPage
unfolding strip
logical_pages n [] = []
logical_pages n (part ∷ rest) =
    let same = logical_pages n rest in
    let more = logical_pages (n + 1) rest in
    if is_empty (strip part)
    then same
    else record { page = n; blocks = record { section = none; text = strip part } ∷ [] } ∷ more

unfoldable pub parse_plain : Text → List ParsedPage
unfolding split_gaps logical_pages
parse_plain text = let (part, rest) = split_gaps (length text) text in logical_pages 1 (part ∷ rest)

-- `any(text.strip() for page in pages for _, text in page.blocks)`
unfoldable pub some_text_in_blocks : List Block → Bool
unfolding is_blank
some_text_in_blocks [] = false
some_text_in_blocks (block ∷ rest) = not (is_blank block.text) || some_text_in_blocks rest

unfoldable pub some_text : List ParsedPage → Bool
unfolding some_text_in_blocks
some_text [] = false
some_text (page ∷ rest) = some_text_in_blocks page.blocks || some_text rest

-- The last test of `parse_document`
abbrev pub check_some_text : List ParsedPage → Attempt (List ParsedPage)
check_some_text pages =
    if some_text pages then value pages else parse_error ErrorCode.no_extractable_text

abbrev pub check_page_count : Limits → List ParsedPage → Attempt (List ParsedPage)
check_page_count limits pages =
    if ltb limits.max_pages (length pages)
    then parse_error ErrorCode.too_many_pages
    else check_some_text pages

abbrev pub pages_of_text : MediaType → Text → List ParsedPage
pages_of_text MediaType.text_markdown text = parse_markdown text
pages_of_text _ text = parse_plain text

abbrev pub parse_text : Limits → MediaType → Option Text → Attempt (List ParsedPage)
parse_text limits media_type none = parse_error ErrorCode.invalid_text
parse_text limits media_type (some text) =
    if ltb limits.max_extracted_chars (length text)
    then parse_error ErrorCode.too_much_extracted_text
    else check_page_count limits (pages_of_text media_type text)

-- `parse_document`
unfoldable pub parse_document : PdfHost → Limits → Bytes → MediaType → Attempt (List ParsedPage)
unfolding parse_pdf_isolated parse_markdown parse_plain some_text decode
parse_document host limits content MediaType.application_pdf =
    parse_pdf_isolated host limits content >>= check_some_text
parse_document host limits content media_type = parse_text limits media_type (decode content)
