-- ===== src/Answering/Validate.antt =====
-- answering.py: `_segments`, `_fold` and `validate_grounded_answer`. It raises one kind of exception, so
-- each check is a test, and the whole is `true` where it returns.
use evidencedesk.Prelude.{
  ℕ, suc, Text, Bool, true, false, Option, none, some, List, [], ◌∷◌, ◌++◌, ◌&&◌, ◌||◌, not, ◌==◌,
  leb, ltb, if◌then◌else◌, codes, drop, is_some,
}
use evidencedesk.Python.Strings.{same, is_space, strip, starts_with}
use evidencedesk.Python.Lines.{split_lines}
use evidencedesk.Python.Search.{within, has_number}
use evidencedesk.Processing.Chunking.{is_empty, stripped, is_end}
use evidencedesk.Evidence.{EvidenceChunk}
use evidencedesk.Trust.{
  TextHost, keep, is_untrusted_document_instruction, untrusted_document_fragment_indexes,
}
use evidencedesk.Answering.{
  AnswerStatus, FieldValue, one, many, RankedChunk, Citation, PassageCandidateAssessment,
  GroundedAnswer,
}

-- `_fold`
unfoldable pub fold : TextHost → Text → Text
unfolding keep
fold host text = keep (λ c. ltb c 128) (host.nfkd (host.casefold text))

-- `[A-ZÀ-ÖØ-Þ0-9]`
abbrev is_capital : ℕ → Bool
is_capital c =
    (leb b'A' c && leb c b'Z')
    || (leb 0xc0 c && leb c 0xd6)
    || (leb 0xd8 c && leb c 0xde)
    || (leb b'0' c && leb c b'9')

abbrev starts_capital : Text → Bool
starts_capital [] = false
starts_capital (c ∷ s) = is_capital c

-- What follows the whitespace that a text starts with, and whether there is any
unfoldable pub after_space : Text → Text
unfolding is_space
after_space [] = []
after_space (c ∷ s) = let rest = after_space s in if is_space c then rest else c ∷ s

-- `(?<=[.!?])\s+(?=[A-ZÀ-ÖØ-Þ0-9])` matches at the start of the text, after `before`.
abbrev cuts_here : ℕ → Text → Bool
unfolding is_space after_space
cuts_here before [] = false
cuts_here before (c ∷ s) = is_end before && is_space c && starts_capital (after_space s)

-- The split of a line: the first part and the others. In a match, `skipping` is set until its end.
unfoldable pub split_capitals : Bool → ℕ → Text → Text × List Text
unfolding is_space after_space
split_capitals skipping before [] = ([], [])
split_capitals skipping before (c ∷ s) =
    let skips = skipping && is_space c in
    let starts = cuts_here before (c ∷ s) in
    let (part, rest) = split_capitals (skips || starts) c s in
    if skips then (part, rest) else if starts then ([], part ∷ rest) else (c ∷ part, rest)

-- `lstrip("•")`
unfoldable pub without_bullets : Text → Text
without_bullets [] = []
without_bullets (c ∷ s) = let rest = without_bullets s in if c == 0x2022 then rest else c ∷ s

-- The parts of one line, none of them empty
unfoldable pub line_segments : Text → List Text
unfolding strip without_bullets split_capitals stripped
line_segments line =
    let bare = strip (without_bullets (strip line)) in
    let (part, rest) = split_capitals false 0 bare in
    if is_empty bare then [] else stripped (part ∷ rest)

unfoldable pub segments_of : List Text → List Text
unfolding line_segments
segments_of [] = []
segments_of (line ∷ rest) = line_segments line ++ segments_of rest

-- `_segments`
unfoldable pub segments : Text → List Text
unfolding segments_of split_lines
segments text = segments_of (split_lines text)

-- `0.0 <= confidence <= 1.0`, on the bits: 0.0 to 1.0, or -0.0
abbrev pub in_unit : ℕ → Bool
in_unit bits = leb bits 0x3ff0000000000000 || bits == 0x8000000000000000

-- Neither `None` nor empty
abbrev pub has_text : Option Text → Bool
has_text none = false
has_text (some s) = not (is_empty s)

abbrev pub none_left : {A : Type 0} → List A → Bool
none_left [] = true
none_left (a ∷ rest) = false

-- `all(f(a) for a in list)` and `any(...)`
unfoldable pub every : {A : Type 0} → (A → Bool) → List A → Bool
every f [] = true
every f (a ∷ rest) = f a && every f rest

unfoldable pub any : {A : Type 0} → (A → Bool) → List A → Bool
any f [] = false
any f (a ∷ rest) = f a || any f rest

-- The entry of a `dict` that has this key, or a new one at its end
unfoldable pub put_chunk : EvidenceChunk → List EvidenceChunk → List EvidenceChunk
put_chunk chunk [] = chunk ∷ []
put_chunk chunk (other ∷ rest) =
    let later = put_chunk chunk rest in if chunk.id == other.id then chunk ∷ rest else other ∷ later

-- `{item.chunk.id: item.chunk for item in ranked}`, added to `chunks`
unfoldable pub by_id_from : List EvidenceChunk → List RankedChunk → List EvidenceChunk
unfolding put_chunk
by_id_from chunks [] = chunks
by_id_from chunks (item ∷ rest) = by_id_from (put_chunk item.chunk chunks) rest

unfoldable pub get_chunk : ℕ → List EvidenceChunk → Option EvidenceChunk
get_chunk id [] = none
get_chunk id (chunk ∷ rest) =
    let later = get_chunk id rest in if id == chunk.id then some chunk else later

abbrev pub parts_of : FieldValue → List Text
parts_of (one s) = s ∷ []
parts_of (many parts) = parts

unfoldable pub field_texts : List (Text × FieldValue) → List Text
field_texts [] = []
field_texts ((name, v) ∷ rest) = parts_of v ++ field_texts rest

abbrev pub optional : Option Text → List Text
optional none = []
optional (some s) = s ∷ []

unfoldable pub excerpts : List Citation → List Text
excerpts [] = []
excerpts (citation ∷ rest) = citation.excerpt ∷ excerpts rest

unfoldable pub assessment_texts : List PassageCandidateAssessment → List Text
unfolding field_texts
assessment_texts [] = []
assessment_texts (a ∷ rest) =
    optional a.answer
    ++ optional a.supporting_excerpt
    ++ field_texts a.extracted_fields
    ++ assessment_texts rest

-- `unsafe_channels`
unfoldable pub unsafe_channels : GroundedAnswer → List Text
unfolding excerpts field_texts assessment_texts
unsafe_channels g =
    g.answer ∷ optional g.supporting_excerpt
    ++ excerpts g.citations
    ++ field_texts g.extracted_fields
    ++ assessment_texts g.candidate_assessments

-- The tests of the status
abbrev pub status_is_valid : GroundedAnswer → AnswerStatus → Bool
status_is_valid g AnswerStatus.answered = g.answerable && not (is_some g.ambiguity_reason)
status_is_valid g AnswerStatus.abstained = not g.answerable
status_is_valid g _ = not g.answerable && has_text g.ambiguity_reason

abbrev pub is_abstained : AnswerStatus → Bool
is_abstained AnswerStatus.abstained = true
is_abstained _ = false

abbrev pub is_answered : AnswerStatus → Bool
is_answered AnswerStatus.answered = true
is_answered _ = false

-- An answer without an excerpt
abbrev pub without_support : GroundedAnswer → Bool
without_support g =
    not (is_some g.supporting_document)
    && not (is_some g.supporting_page)
    && is_abstained g.status
    && not (is_some g.ambiguity_reason)
    && none_left g.extracted_fields
    && none_left g.supporting_chunk_ids
    && none_left g.citations

-- `matching`; `name` gives the text of a UUID.
unfoldable pub matching : (ℕ → Text) → Text → ℕ → List EvidenceChunk → List EvidenceChunk
unfolding same
matching name document page [] = []
matching name document page (chunk ∷ rest) =
    let others = matching name document page rest in
    if same (name chunk.document_id) document && chunk.page == page then chunk ∷ others else others

-- Some part of the list that contains the excerpt has a blocked index, from `n` on.
unfoldable pub in_blocked : Text → List ℕ → ℕ → List Text → Bool
unfolding within has_number
in_blocked excerpt blocked n [] = false
in_blocked excerpt blocked n (part ∷ rest) =
    (within excerpt part && has_number n blocked) || in_blocked excerpt blocked (suc n) rest

unfoldable pub in_untrusted_segment : TextHost → Text → EvidenceChunk → Bool
unfolding in_blocked untrusted_document_fragment_indexes segments
in_untrusted_segment host excerpt chunk =
    in_blocked excerpt (untrusted_document_fragment_indexes host (segments chunk.text)) 0
      (segments chunk.text)

unfoldable pub boolean_supported : Text → Text → Bool
unfolding starts_with same
boolean_supported answer excerpt =
    (starts_with answer (codes "Yes. ") && same (drop 5 answer) excerpt)
    || (starts_with answer (codes "No. ") && same (drop 4 answer) excerpt)

unfoldable pub answer_supported : TextHost → Text → Text → Bool
unfolding fold within boolean_supported
answer_supported host answer excerpt =
    within (fold host answer) (fold host excerpt) || boolean_supported answer excerpt

unfoldable pub field_supported : TextHost → Text → Text × FieldValue → Bool
unfolding fold within every
field_supported host excerpt (name, v) =
    not (is_empty name)
    && not (none_left (parts_of v))
    && every (λ s. not (is_empty s) && within (fold host s) (fold host excerpt)) (parts_of v)

unfoldable pub citation_is_grounded : List EvidenceChunk → Citation → Bool
unfolding get_chunk within same
citation_is_grounded chunks citation = elim (get_chunk citation.chunk_id chunks) [
  | none ↦ false
  | some chunk ↦
      citation.document_id == chunk.document_id
      && citation.page == chunk.page
      && same citation.document_name chunk.document_name
      && within citation.excerpt chunk.text
]

-- An answer with an excerpt, on the chunks that match its document and page
unfoldable pub support_is_valid :
    TextHost → List EvidenceChunk → GroundedAnswer → Text → List EvidenceChunk → Bool
unfolding any every within in_untrusted_segment answer_supported field_supported
    citation_is_grounded has_number
support_is_valid host chunks g excerpt found =
    not (none_left found)
    && any (λ (c : EvidenceChunk). within excerpt c.text) found
    && not (any (in_untrusted_segment host excerpt) found)
    && (not (is_answered g.status) || answer_supported host g.answer excerpt)
    && every (field_supported host excerpt) g.extracted_fields
    && any (λ (c : EvidenceChunk). has_number c.id g.supporting_chunk_ids && within excerpt c.text)
        found
    && every (citation_is_grounded chunks) g.citations

unfoldable pub located_support :
    TextHost
    → (ℕ → Text)
    → List EvidenceChunk
    → GroundedAnswer
    → Text
    → Option Text
    → Option ℕ
    → Bool
unfolding support_is_valid matching
located_support host name chunks g excerpt (some document) (some page) =
    support_is_valid host chunks g excerpt (matching name document page chunks)
located_support host name chunks g excerpt _ _ = false

unfoldable pub evidence_is_valid :
    TextHost → (ℕ → Text) → List EvidenceChunk → GroundedAnswer → Option Text → Bool
unfolding located_support
evidence_is_valid host name chunks g none = without_support g
evidence_is_valid host name chunks g (some excerpt) =
    not (is_abstained g.status)
    && located_support host name chunks g excerpt g.supporting_document g.supporting_page

-- `validate_grounded_answer`
unfoldable pub validate_grounded_answer :
    TextHost → (ℕ → Text) → GroundedAnswer → List RankedChunk → Bool
unfolding by_id_from any every unsafe_channels evidence_is_valid get_chunk
validate_grounded_answer host name g ranked =
    let by_id = by_id_from [] ranked in
    in_unit g.confidence
    && status_is_valid g g.status
    && every (λ id. is_some (get_chunk id by_id)) g.supporting_chunk_ids
    && not (any (is_untrusted_document_instruction host) (unsafe_channels g))
    && evidence_is_valid host name by_id g g.supporting_excerpt
