-- ===== src/Processing/Plain.antt =====
-- processing.py: the characters of a plain text, from its bytes to its chunks.
use evidencedesk.Prelude.{
  ℕ, zero, suc, ◌+◌, ◌≤◌, ◌<◌, ◌≡◌, refl, ap, sym, ◌∙◌, Text, Bytes, true, Option, none, some, List,
  [], ◌∷◌, ◌++◌, arith, ltb, ◌==◌, length, map, subst, Bool-cases, inl, inr, if◌then◌else◌,
}
use evidencedesk.Db.{MediaType}
use evidencedesk.Python.Strings.{is_space, strip}
use evidencedesk.Python.Utf8.{decode}
use evidencedesk.Processing.{Attempt, value, Block, ParsedPage, DocumentChunk}
use evidencedesk.Processing.Chunking.{
  is_empty, split_text, located, pieces_of_blocks, pieces, chunk_pages,
}
use evidencedesk.Processing.Ink.{
  ink, inks, inks-append, append-nil, ink-strip, whole, inks-split_text,
}
use evidencedesk.Processing.Bounds.{contents, Appended, chunk_pages-Appended}
use evidencedesk.Processing.Pdf.{Limits, PdfHost}
use evidencedesk.Processing.Parse.{
  after_gap, gap_at, onward, cut_gap, split_gaps, logical_pages, parse_plain, some_text,
  check_page_count, parse_text, parse_document,
}

-- The texts of all blocks, in their order
abbrev pub block_texts : List Block → List Text
block_texts [] = []
block_texts (block ∷ rest) = block.text ∷ block_texts rest

abbrev pub written : List ParsedPage → List Text
written [] = []
written (page ∷ rest) = block_texts page.blocks ++ written rest

-- What follows a gap has all the ink, and is not longer.
abbrev IsGap : Text → Option Text → Type 0
IsGap s none = Unit
IsGap s (some r) = (ink r ≡ ink s) × (length r ≤ length s)

ink_space : (c : ℕ) (s : Text) → is_space c ≡ true → ink (c ∷ s) ≡ ink s
unfolding ink
ink_space c s e = rw e refl

longer-IsGap :
    (c : ℕ) (s : Text) (rest : Option Text)
    → is_space c ≡ true
    → IsGap s rest
    → IsGap (c ∷ s) (elim rest [ some r ↦ some r | none ↦ if c == 10 then some s else none ])
longer-IsGap c s (some r) e h = (h.0 ∙ sym (ink_space c s e), omega (arith, h.1))
longer-IsGap c s none e h = elim (Bool-cases (c == 10)) [
  | inl f ↦ rw f (sym (ink_space c s e), omega arith)
  | inr f ↦ rw f tt
]

after_gap-IsGap : (s : Text) → IsGap s (after_gap s)
unfolding after_gap
after_gap-IsGap [] = tt
after_gap-IsGap (c ∷ s) = elim (Bool-cases (is_space c)) [
  | inl e ↦ rw e (longer-IsGap c s (after_gap s) e (after_gap-IsGap s))
  | inr e ↦ rw e tt
]

newline_space : is_space 10 ≡ true
unfolding is_space
newline_space = refl

gap_at-IsGap : (c : ℕ) (s : Text) → IsGap (c ∷ s) (gap_at c s)
gap_at-IsGap c s = elim (Bool-cases (c == 10)) [
  | inl e ↦ rw e (go (after_gap s) (rw (ten c e) newline_space) (after_gap-IsGap s))
  | inr e ↦ rw e tt
]
  where
    ten : (n : ℕ) → (n == 10) ≡ true → n ≡ 10
    ten n e = ground arith

    go : (rest : Option Text) → is_space c ≡ true → IsGap s rest → IsGap (c ∷ s) rest
    go (some r) e h = (h.0 ∙ sym (ink_space c s e), omega (arith, h.1))
    go none e h = tt

ink-cut_gap :
    (c : ℕ) (s : Text) (gap : Option Text) (cut : Text × List Text)
    → IsGap (c ∷ s) gap
    → whole cut ≡ ink (onward gap s)
    → whole (cut_gap gap c cut) ≡ ink (c ∷ s)
unfolding ink
ink-cut_gap c s none (part, rest) h same = elim (Bool-cases (is_space c)) [
  | inl e ↦ rw e same
  | inr e ↦ rw e (ap (λ (r : Text). c ∷ r) same)
]
ink-cut_gap c s (some r) (part, rest) h same = same ∙ h.0

length-onward :
    (c : ℕ) (s : Text) (gap : Option Text) → gap_at c s ≡ gap → length (onward gap s) ≤ length s
length-onward c s none e = omega arith
length-onward c s (some r) e = elim (Bool-cases (c == 10)) [
  | inl f ↦ shorter (after_gap s) (after_gap-IsGap s) (rw f at e)
  | inr f ↦ cc (rw f at e)
]
  where
    shorter : (rest : Option Text) → IsGap s rest → rest ≡ some r → length r ≤ length s
    shorter (some q) h e = ground (arith, h.1)
    shorter none h e = cc

whole-split_gaps : (fuel : ℕ) (s : Text) → length s ≤ fuel → whole (split_gaps fuel s) ≡ ink s
unfolding split_gaps
whole-split_gaps zero s h = append-nil (ink s)
whole-split_gaps (suc fuel) [] h = append-nil (ink [])
whole-split_gaps (suc fuel) (c ∷ s) h =
    ink-cut_gap c s (gap_at c s) (split_gaps fuel (onward (gap_at c s) s)) (gap_at-IsGap c s) (
      whole-split_gaps fuel (onward (gap_at c s) s)
        (omega (arith, length-onward c s (gap_at c s) refl)))

ink_blank : (s : Text) → is_empty s ≡ true → ink s ≡ []
unfolding ink
ink_blank [] e = refl
ink_blank (c ∷ s) e = cc

inks-logical_pages :
    (n : ℕ) (parts : List Text) → inks (written (logical_pages n parts)) ≡ inks parts
unfolding logical_pages
inks-logical_pages n [] = refl
inks-logical_pages n (part ∷ rest) = elim (Bool-cases (is_empty (strip part))) [
  | inl e ↦ rw e (
      inks-logical_pages n rest
      ∙ ap (λ r. r ++ inks rest) (sym (ink_blank (strip part) e) ∙ ink-strip part))
  | inr e ↦ rw e (
      ap (λ r. ink (strip part) ++ r) (inks-logical_pages (n + 1) rest)
      ∙ ap (λ r. r ++ inks rest) (ink-strip part))
]

-- The pages of a plain text have all its characters that are no white space, in their order.
inks-parse_plain : (text : Text) → inks (written (parse_plain text)) ≡ ink text
unfolding parse_plain
inks-parse_plain text =
    let (part, rest) = split_gaps (length text) text in
    inks-logical_pages 1 (part ∷ rest) ∙ whole-split_gaps (length text) text (omega arith)

-- The texts of the chunks, in their order
abbrev pub texts_of : List DocumentChunk → List Text
texts_of [] = []
texts_of (c ∷ rest) = c.text ∷ texts_of rest

texts_of-append : (a b : List DocumentChunk) → texts_of (a ++ b) ≡ texts_of a ++ texts_of b
texts_of-append [] b = refl
texts_of-append (c ∷ a) b = ap (λ (r : List Text). c.text ∷ r) (texts_of-append a b)

texts_of-located :
    (page : ParsedPage) (block : Block) (texts : List Text)
    → texts_of (map (located page block) texts) ≡ texts
texts_of-located page block [] = refl
texts_of-located page block (s ∷ rest) =
    ap (λ (r : List Text). s ∷ r) (texts_of-located page block rest)

module _ (max_chars : ℕ) (positive : 0 < max_chars) where
  inks-pieces_of_blocks :
      (page : ParsedPage) (blocks : List Block)
      → inks (texts_of (pieces_of_blocks max_chars page blocks)) ≡ inks (block_texts blocks)
  unfolding pieces_of_blocks
  inks-pieces_of_blocks page [] = refl
  inks-pieces_of_blocks page (block ∷ rest) =
      let first = map (located page block) (split_text max_chars block.text) in
      ap inks (texts_of-append first (pieces_of_blocks max_chars page rest))
      ∙ inks-append (texts_of first) (texts_of (pieces_of_blocks max_chars page rest))
      ∙ ap (λ r. inks r ++ inks (texts_of (pieces_of_blocks max_chars page rest)))
          (texts_of-located page block (split_text max_chars block.text))
      ∙ ap (λ r. r ++ inks (texts_of (pieces_of_blocks max_chars page rest)))
          (inks-split_text max_chars positive block.text)
      ∙ ap (λ r. ink block.text ++ r) (inks-pieces_of_blocks page rest)

  inks-pieces :
      (pages : List ParsedPage) → inks (texts_of (pieces max_chars pages)) ≡ inks (written pages)
  unfolding pieces
  inks-pieces [] = refl
  inks-pieces (page ∷ rest) =
      let first = pieces_of_blocks max_chars page page.blocks in
      ap inks (texts_of-append first (pieces max_chars rest))
      ∙ inks-append (texts_of first) (texts_of (pieces max_chars rest))
      ∙ ap (λ r. r ++ inks (texts_of (pieces max_chars rest)))
          (inks-pieces_of_blocks page page.blocks)
      ∙ ap (λ r. inks (block_texts page.blocks) ++ r) (inks-pieces rest)
      ∙ sym (inks-append (block_texts page.blocks) (written rest))

contents-texts_of : (a b : List DocumentChunk) → contents a ≡ contents b → texts_of a ≡ texts_of b
contents-texts_of a b e = shown a ∙ ap texts_in e ∙ sym (shown b)
  where
    texts_in : List (ℕ × Option Text × Text) → List Text
    texts_in [] = []
    texts_in ((page, section, text) ∷ rest) = text ∷ texts_in rest

    shown : (chunks : List DocumentChunk) → texts_of chunks ≡ texts_in (contents chunks)
    shown [] = refl
    shown (c ∷ rest) = ap (λ (r : List Text). c.text ∷ r) (shown rest)

abbrev IsPlain : Text → Attempt (List ParsedPage) → Type 0
IsPlain text (value pages) = pages ≡ parse_plain text
IsPlain text _ = Unit

check_page_count-IsPlain :
    (limits : Limits) (text : Text) → IsPlain text (check_page_count limits (parse_plain text))
check_page_count-IsPlain limits text =
    elim (Bool-cases (ltb limits.max_pages (length (parse_plain text)))) [
      | inl e ↦ rw e tt
      | inr e ↦
          rw e (elim (Bool-cases (some_text (parse_plain text))) [
            | inl f ↦ rw f refl
            | inr f ↦ rw f tt
          ])
    ]

parse_text-IsPlain :
    (limits : Limits) (text : Text)
    → IsPlain text (parse_text limits MediaType.text_plain (some text))
parse_text-IsPlain limits text = elim (Bool-cases (ltb limits.max_extracted_chars (length text))) [
  | inl e ↦ rw e tt
  | inr e ↦ rw e (check_page_count-IsPlain limits text)
]

-- If a plain text has pages and these have chunks of a positive length, the chunks have all the
-- characters of the decoded file that are no white space, in their order.
pub plain_is_kept :
    (host : PdfHost) (limits : Limits) (content : Bytes) (text : Text) (max_chars max_chunks : ℕ)
    (pages : List ParsedPage) (chunks : List DocumentChunk)
    → decode content ≡ some text
    → parse_document host limits content MediaType.text_plain ≡ value pages
    → 0 < max_chars
    → chunk_pages max_chars max_chunks pages ≡ value chunks
    → inks (texts_of chunks) ≡ ink text
unfolding parse_document
plain_is_kept host limits content text max_chars max_chunks pages chunks decoded parsed positive
      chunked =
    let appended =
      subst (Appended max_chars max_chunks 0 (pieces max_chars pages)) chunked
        (chunk_pages-Appended max_chars max_chunks pages positive) in
    let plain =
      subst (IsPlain text) (ap (parse_text limits MediaType.text_plain) (sym decoded) ∙ parsed)
        (parse_text-IsPlain limits text) in
    ap inks (contents-texts_of chunks (pieces max_chars pages) appended.4)
    ∙ inks-pieces max_chars positive pages
    ∙ ap (λ p. inks (written p)) plain
    ∙ inks-parse_plain text
