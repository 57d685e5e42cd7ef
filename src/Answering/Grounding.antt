-- ===== src/Answering/Grounding.antt =====
-- answering.py: the answers that `validate_grounded_answer` lets pass.
use evidencedesk.Prelude.{
  ℕ, Text, true, false, Option, none, some, List, [], ◌∷◌, ◌&&◌, ◌||◌, not, ◌==◌, ◌≡◌, refl, sym,
  ap, ◌∙◌, subst, arith, All, All-mono, All-Any, All-both, Option-cases, and_true, or_true,
  not-true, is_some, inl, inr, ◌⊎◌,
}
use evidencedesk.Processing.Chunking.{is_empty}
use evidencedesk.Python.Strings.{same, same_sound}
use evidencedesk.Python.Search.{within, has_number, Occurs, within-Occurs}
use evidencedesk.Evidence.{EvidenceChunk}
use evidencedesk.Trust.{TextHost, is_untrusted_document_instruction}
use evidencedesk.Answering.{AnswerStatus, FieldValue, RankedChunk, Citation, GroundedAnswer}
use evidencedesk.Answering.Validate.{
  fold, every, any, none_left, by_id_from, get_chunk, parts_of, unsafe_channels, is_abstained,
  is_answered, in_unit, status_is_valid, matching, in_untrusted_segment, boolean_supported,
  answer_supported, field_supported, citation_is_grounded, support_is_valid, located_support,
  evidence_is_valid, validate_grounded_answer,
}
use evidencedesk.Answering.Trusted.{AnswerIsTrusted, channels-IsTrusted}
use evidencedesk.Answering.Passages.{
  every-All, any-Any, any-All, Retrieved, by_id_Retrieved, get_chunk-All, matching-All,
}

-- What a citation says of its chunk, which is one of the passages, and its excerpt is in it.
abbrev pub CitationIsGrounded : List RankedChunk → Citation → Type 0
CitationIsGrounded ranked citation =
    (chunk : EvidenceChunk) × Retrieved ranked chunk
    × (citation.chunk_id ≡ chunk.id)
    × (citation.document_id ≡ chunk.document_id)
    × (citation.page ≡ chunk.page)
    × (citation.document_name ≡ chunk.document_name)
    × Occurs citation.excerpt chunk.text

-- A passage, of the document and the page that the answer names, has the excerpt in it, no segment of
-- it that is untrusted has, and it is among the supporting chunks.
abbrev pub ExcerptIsGrounded :
    TextHost → (ℕ → Text) → List RankedChunk → GroundedAnswer → Text → Type 0
ExcerptIsGrounded host name ranked g excerpt =
    (chunk : EvidenceChunk) × Retrieved ranked chunk
    × (g.supporting_document ≡ some (name chunk.document_id))
    × (g.supporting_page ≡ some chunk.page)
    × Occurs excerpt chunk.text
    × (in_untrusted_segment host excerpt chunk ≡ false)
    × (has_number chunk.id g.supporting_chunk_ids ≡ true)

-- Folded, the answer is in the excerpt; or it is the excerpt after "Yes. " or "No. ".
abbrev pub AnswerStands : TextHost → AnswerStatus → Text → Text → Type 0
AnswerStands host AnswerStatus.answered answer excerpt =
    Occurs (fold host answer) (fold host excerpt) ⊎ (boolean_supported answer excerpt ≡ true)
AnswerStands host _ answer excerpt = Unit

abbrev pub FieldStands : TextHost → Text → Text × FieldValue → Type 0
FieldStands host excerpt (field, v) =
    All (λ (s : Text). Occurs (fold host s) (fold host excerpt)) (parts_of v)

abbrev pub EvidenceIsGrounded :
    TextHost → (ℕ → Text) → List RankedChunk → GroundedAnswer → Option Text → Type 0
EvidenceIsGrounded host name ranked g none =
    (g.status ≡ AnswerStatus.abstained) × (g.extracted_fields ≡ []) × (g.citations ≡ [])
EvidenceIsGrounded host name ranked g (some excerpt) =
    ExcerptIsGrounded host name ranked g excerpt
    × AnswerStands host g.status g.answer excerpt
    × All (FieldStands host excerpt) g.extracted_fields

pub record IsGrounded (host : TextHost) (name : ℕ → Text) (ranked : List RankedChunk)
    (g : GroundedAnswer) : Type 0 where
  pub trusted : AnswerIsTrusted host g
  pub citations : All (CitationIsGrounded ranked) g.citations
  pub evidence : EvidenceIsGrounded host name ranked g g.supporting_excerpt

none_left_nil : {A : Type 0} (xs : List A) → none_left xs ≡ true → xs ≡ []
none_left_nil [] e = refl
none_left_nil (x ∷ xs) e = cc

abstained_status :
    (status : AnswerStatus) → is_abstained status ≡ true → status ≡ AnswerStatus.abstained
abstained_status AnswerStatus.abstained e = refl
abstained_status AnswerStatus.answered e = cc
abstained_status AnswerStatus.partially_supported e = cc
abstained_status AnswerStatus.ambiguous e = cc

module _ (host : TextHost) (name : ℕ → Text) where
  citation_is_grounded_lem :
      (ranked : List RankedChunk) (chunks : List EvidenceChunk) (citation : Citation)
      → All (Retrieved ranked) chunks
      → citation_is_grounded chunks citation ≡ true
      → CitationIsGrounded ranked citation
  unfolding citation_is_grounded
  citation_is_grounded_lem ranked chunks citation h e =
      elim (Option-cases (get_chunk citation.chunk_id chunks)) [
        | inl f ↦ cc (rw (citation_is_grounded, f) at e)
        | inr (chunk, f) ↦
            let (retrieved, id) =
              get_chunk-All (Retrieved ranked) citation.chunk_id chunks chunk h f in
            let (rest, inside) =
              and_true
                (citation.document_id == chunk.document_id
                  && citation.page == chunk.page
                  && same citation.document_name chunk.document_name)
                (within citation.excerpt chunk.text) (rw (citation_is_grounded, f) at e) in
            let (numbers, names) =
              and_true (citation.document_id == chunk.document_id && citation.page == chunk.page)
                (same citation.document_name chunk.document_name) rest in
            let (document, page) =
              and_true (citation.document_id == chunk.document_id) (citation.page == chunk.page)
                numbers in
            (
              chunk,
              retrieved,
              id,
              ground (arith, document),
              ground (arith, page),
              same_sound citation.document_name chunk.document_name names,
              within-Occurs citation.excerpt chunk.text inside,
            )
      ]

  answer_supported-AnswerStands :
      (status : AnswerStatus) (answer excerpt : Text)
      → (not (is_answered status) || answer_supported host answer excerpt) ≡ true
      → AnswerStands host status answer excerpt
  unfolding answer_supported
  answer_supported-AnswerStands AnswerStatus.answered answer excerpt e =
      elim (or_true (within (fold host answer) (fold host excerpt))
        (boolean_supported answer excerpt) e) [
          | inl h ↦ inl (within-Occurs (fold host answer) (fold host excerpt) h)
          | inr h ↦ inr h
        ]
  answer_supported-AnswerStands AnswerStatus.partially_supported answer excerpt e = tt
  answer_supported-AnswerStands AnswerStatus.ambiguous answer excerpt e = tt
  answer_supported-AnswerStands AnswerStatus.abstained answer excerpt e = tt

  field_supported-FieldStands :
      (excerpt : Text) (field : Text × FieldValue)
      → field_supported host excerpt field ≡ true
      → FieldStands host excerpt field
  unfolding field_supported
  field_supported-FieldStands excerpt (field, v) e =
      let folded = λ (s : Text). not (is_empty s) && within (fold host s) (fold host excerpt) in
      let (some_parts, parts) =
        and_true (not (is_empty field) && not (none_left (parts_of v))) (every folded (parts_of v))
          e in
      All-mono (λ (s : Text). folded s ≡ true)
        (λ (s : Text). Occurs (fold host s) (fold host excerpt)) (parts_of v)
        (λ s h.
          within-Occurs (fold host s) (fold host excerpt)
            (and_true (not (is_empty s)) (within (fold host s) (fold host excerpt)) h).1)
        (every-All folded (parts_of v) parts)

  module _ (ranked : List RankedChunk) (chunks : List EvidenceChunk) (g : GroundedAnswer)
      (all : All (Retrieved ranked) chunks) where
    support_is_valid-IsGrounded :
        (excerpt document : Text) (page : ℕ)
        → g.supporting_document ≡ some document
        → g.supporting_page ≡ some page
        → support_is_valid host chunks g excerpt (matching name document page chunks) ≡ true
        → EvidenceIsGrounded host name ranked g (some excerpt)
          × All (CitationIsGrounded ranked) g.citations
    unfolding support_is_valid
    support_is_valid-IsGrounded excerpt document page d p e =
        let found = matching name document page chunks in
        let inside = λ (c : EvidenceChunk). within excerpt c.text in
        let names_it = λ (c : EvidenceChunk). has_number c.id g.supporting_chunk_ids && inside c in
        let untrusted = any (in_untrusted_segment host excerpt) found in
        let answer = not (is_answered g.status) || answer_supported host g.answer excerpt in
        let fields = every (field_supported host excerpt) g.extracted_fields in
        let (e5, cited) =
          and_true
            (not (none_left found)
              && any inside found
              && not untrusted
              && answer
              && fields
              && any names_it found)
            (every (citation_is_grounded chunks) g.citations) e in
        let (e4, named) =
          and_true (not (none_left found) && any inside found && not untrusted && answer && fields)
            (any names_it found) e5 in
        let (e3, stand) =
          and_true (not (none_left found) && any inside found && not untrusted && answer) fields
            e4 in
        let (e2, answers) =
          and_true (not (none_left found) && any inside found && not untrusted) answer e3 in
        let (e1, trusted) =
          and_true (not (none_left found) && any inside found) (not untrusted) e2 in
        let safe = any-All (in_untrusted_segment host excerpt) found (not-true untrusted trusted) in
        let named_it = λ (c : EvidenceChunk). names_it c ≡ true in
        let located = λ (c : EvidenceChunk).
          Retrieved ranked c × (document ≡ name c.document_id) × (page ≡ c.page) in
        let safely = λ (c : EvidenceChunk). in_untrusted_segment host excerpt c ≡ false in
        let (chunk, ((retrieved, of, on), apart), is_named) =
          All-Any (λ c. located c × safely c) named_it found
            (All-both located safely found
              (matching-All name document page (Retrieved ranked) chunks all) safe)
            (any-Any names_it found named) in
        let (among, within_it) =
          and_true (has_number chunk.id g.supporting_chunk_ids) (inside chunk) is_named in
        (
          (
            (
              chunk,
              retrieved,
              d ∙ ap (λ s. some s) of,
              p ∙ ap (λ n. some n) on,
              within-Occurs excerpt chunk.text within_it,
              apart,
              among,
            ),
            answer_supported-AnswerStands g.status g.answer excerpt answers,
            All-mono (λ f. field_supported host excerpt f ≡ true) (FieldStands host excerpt)
                g.extracted_fields (field_supported-FieldStands excerpt)
                (every-All (field_supported host excerpt) g.extracted_fields stand),
          ),
          All-mono (λ c. citation_is_grounded chunks c ≡ true) (CitationIsGrounded ranked)
              g.citations (λ c h. citation_is_grounded_lem ranked chunks c all h)
              (every-All (citation_is_grounded chunks) g.citations cited),
        )

    located_support-IsGrounded :
        (excerpt : Text) (document : Option Text) (page : Option ℕ)
        → g.supporting_document ≡ document
        → g.supporting_page ≡ page
        → located_support host name chunks g excerpt document page ≡ true
        → EvidenceIsGrounded host name ranked g (some excerpt)
          × All (CitationIsGrounded ranked) g.citations
    unfolding located_support
    located_support-IsGrounded excerpt (some document) (some page) d p e =
        support_is_valid-IsGrounded excerpt document page d p e
    located_support-IsGrounded excerpt none page d p e = cc
    located_support-IsGrounded excerpt (some document) none d p e = cc

    evidence_is_valid-IsGrounded :
        (excerpt : Option Text)
        → evidence_is_valid host name chunks g excerpt ≡ true
        → EvidenceIsGrounded host name ranked g excerpt
          × All (CitationIsGrounded ranked) g.citations
    unfolding evidence_is_valid
    evidence_is_valid-IsGrounded (some excerpt) e =
        located_support-IsGrounded excerpt g.supporting_document g.supporting_page refl refl
          (and_true (not (is_abstained g.status))
            (located_support host name chunks g excerpt g.supporting_document g.supporting_page)
            e).1
    evidence_is_valid-IsGrounded none e =
        let located = not (is_some g.supporting_document) && not (is_some g.supporting_page) in
        let (e3, cited) =
          and_true
            (located
              && is_abstained g.status
              && not (is_some g.ambiguity_reason)
              && none_left g.extracted_fields
              && none_left g.supporting_chunk_ids)
            (none_left g.citations) e in
        let (e2, ids) =
          and_true
            (located
              && is_abstained g.status
              && not (is_some g.ambiguity_reason)
              && none_left g.extracted_fields)
            (none_left g.supporting_chunk_ids) e3 in
        let (e1, fields) =
          and_true (located && is_abstained g.status && not (is_some g.ambiguity_reason))
            (none_left g.extracted_fields) e2 in
        let (e0, reason) =
          and_true (located && is_abstained g.status) (not (is_some g.ambiguity_reason)) e1 in
        let (place, abstained) = and_true located (is_abstained g.status) e0 in
        let uncited = none_left_nil g.citations cited in
        (
          (abstained_status g.status abstained, none_left_nil g.extracted_fields fields, uncited),
          subst (All (CitationIsGrounded ranked)) (sym uncited) tt,
        )

  pub validate_grounded_answer-IsGrounded :
      (g : GroundedAnswer) (ranked : List RankedChunk)
      → validate_grounded_answer host name g ranked ≡ true
      → IsGrounded host name ranked g
  unfolding validate_grounded_answer
  validate_grounded_answer-IsGrounded g ranked e =
      let by_id = by_id_from [] ranked in
      let ids = every (λ id. is_some (get_chunk id by_id)) g.supporting_chunk_ids in
      let untrusted = any (is_untrusted_document_instruction host) (unsafe_channels g) in
      let (e2, evidence) =
        and_true (in_unit g.confidence && status_is_valid g g.status && ids && not untrusted)
          (evidence_is_valid host name by_id g g.supporting_excerpt) e in
      let (e1, trusted) =
        and_true (in_unit g.confidence && status_is_valid g g.status && ids) (not untrusted) e2 in
      let (supported, cited) =
        evidence_is_valid-IsGrounded ranked by_id g (by_id_Retrieved ranked) g.supporting_excerpt
          evidence in
      record {
        trusted = channels-IsTrusted host g (
            any-All (is_untrusted_document_instruction host) (unsafe_channels g)
              (not-true untrusted trusted));
        citations = cited;
        evidence = supported;
      }
