-- ===== src/Qwen/Grounded.antt =====
-- qwen_answering.py: the answers of `QwenAnswerProvider.answer`.
use evidencedesk.Prelude.{
  ℕ, Text, Bool, true, false, Option, none, some, List, [], ◌∷◌, ◌&&◌, ◌||◌, not, ◌≡◌, refl, subst,
  Bool-cases, Option-cases, inl, inr, and_true, take, not-false,
}
use evidencedesk.Python.Strings.{is_blank, strip}
use evidencedesk.Python.Search.{within, Occurs, within-Occurs}
use evidencedesk.Evidence.{EvidenceChunk}
use evidencedesk.Trust.{TextHost, is_untrusted_document_instruction}
use evidencedesk.Answering.{FieldValue, AnswerStatus, RankedChunk, GroundedAnswer}
use evidencedesk.Answering.Validate.{none_left, any, matching, validate_grounded_answer}
use evidencedesk.Answering.Grounding.{IsGrounded, validate_grounded_answer-IsGrounded}
use evidencedesk.Qwen.{value, QwenDecision}
use evidencedesk.Qwen.Decision.{status, parse_decision}
use evidencedesk.Qwen.Parsed.{bind-value, refuse_if-value, HasShape, parse_decision-IsDecision}
use evidencedesk.Qwen.Support.{
  normalise, values_are_supported, chunks_of, in_untrusted_line, answer_in_excerpt,
  support_is_found, support_stands, validate_qwen_decision,
}
use evidencedesk.Qwen.Provider.{
  QwenHost, build_prompt, support_of, answer_or, fallback, grounded_of, checked, answer_of,
  completed, answer,
}

-- The answer is the words of the excerpt, but for case and whitespace, or one of the two messages.
abbrev pub IsQuoted : TextHost → AnswerStatus → Text → Option Text → Type 0
IsQuoted host AnswerStatus.answered words (some excerpt) =
    Occurs (normalise host words) (normalise host excerpt)
IsQuoted host AnswerStatus.ambiguous words excerpt = words ≡ fallback AnswerStatus.ambiguous
IsQuoted host AnswerStatus.abstained words excerpt = words ≡ fallback AnswerStatus.abstained
IsQuoted host _ words excerpt = ⊥

module _ (host : TextHost) where
  answered-IsQuoted :
      (name : ℕ → Text) (d : QwenDecision) (chunks : List EvidenceChunk) (words : Text)
      (document : Option Text) (page : Option ℕ) (excerpt : Option Text)
      → d.answerable ≡ true
      → d.answer ≡ some words
      → support_stands host name d chunks document page excerpt ≡ true
      → IsQuoted host AnswerStatus.answered words excerpt
  unfolding support_stands support_is_found answer_in_excerpt
  answered-IsQuoted name d chunks words (some document) (some page) (some excerpt) able says e =
      let found = matching name document page chunks in
      let before =
        not (is_untrusted_document_instruction host excerpt)
        && not (none_left found)
        && any (λ (c : EvidenceChunk). within excerpt c.text) found
        && not (any (in_untrusted_line host excerpt) found) in
      let answers = not d.answerable || answer_in_excerpt host d.answer excerpt in
      let (e1, _) =
        and_true (before && answers) (values_are_supported host d.extracted_fields excerpt) e in
      let (_, quoted) = and_true before answers e1 in
      within-Occurs (normalise host words) (normalise host excerpt) (rw (able, says) at quoted)
  answered-IsQuoted name d chunks words none none none able says e = cc (rw able at e)
  answered-IsQuoted name d chunks words (some x) none excerpt able says e = cc
  answered-IsQuoted name d chunks words (some x) (some y) none able says e = cc
  answered-IsQuoted name d chunks words none (some y) excerpt able says e = cc
  answered-IsQuoted name d chunks words none none (some z) able says e = cc

  shape-IsQuoted :
      (name : ℕ → Text) (chunks : List EvidenceChunk) (answerable : Bool) (answer : Option Text)
      (confidence : ℕ) (document : Option Text) (page : Option ℕ) (excerpt reason : Option Text)
      (fields : List (Text × FieldValue))
      → let d : QwenDecision = record {
        answerable = answerable;
        answer = answer;
        confidence = confidence;
        supporting_document = document;
        supporting_page = page;
        supporting_excerpt = excerpt;
        ambiguity_reason = reason;
        extracted_fields = fields;
      } in
        HasShape answerable reason d
        → support_stands host name d chunks document page excerpt ≡ true
        → IsQuoted host (status d) (answer_or answer (fallback (status d))) excerpt
  unfolding status is_blank strip
  shape-IsQuoted name chunks true (some (c ∷ a)) x document page excerpt none fields h stands =
      answered-IsQuoted name _ chunks (c ∷ a) document page excerpt refl refl stands
  shape-IsQuoted name chunks true (some []) x document page excerpt none fields (words, says, inked)
        stands =
      cc (rw (← no_words words says) at inked)
    where
      no_words : (words : Text) → some [] ≡ some words → [] ≡ words
      no_words words says = cc
  shape-IsQuoted name chunks true none x document page excerpt none fields (words, says, inked)
        stands =
      cc
  shape-IsQuoted name chunks true answer x document page excerpt (some r) fields h stands = absurd h
  shape-IsQuoted name chunks false none x document page excerpt none fields h stands = refl
  shape-IsQuoted name chunks false (some a) x document page excerpt none fields (says, _, _, _, _)
        stands =
      cc
  shape-IsQuoted name chunks false none x document page excerpt (some []) fields h stands = refl
  shape-IsQuoted name chunks false none x document page excerpt (some (c ∷ r)) fields h stands =
      refl
  shape-IsQuoted name chunks false (some a) x document page excerpt (some r) fields h stands = cc

  checked-value :
      (name : ℕ → Text) (made g : GroundedAnswer) (context : List RankedChunk)
      → checked host name made context ≡ value g
      → (validate_grounded_answer host name made context ≡ true) × (made ≡ g)
  unfolding checked
  checked-value name made g context e =
      elim (Bool-cases (validate_grounded_answer host name made context)) [
        | inl h ↦ (h, cc (rw h at e))
        | inr h ↦ cc (rw h at e)
      ]

  abbrev IsGiven : QwenHost → List RankedChunk → GroundedAnswer → Type 0
  IsGiven qwen context g =
      IsGrounded host qwen.name context g × IsQuoted host g.status g.answer g.supporting_excerpt

  answer_of-IsGiven :
      (qwen : QwenHost) (context : List RankedChunk) (raw : Text) (g : GroundedAnswer)
      → answer_of host qwen context raw ≡ value g
      → IsGiven qwen context g
  unfolding answer_of validate_qwen_decision grounded_of
  answer_of-IsGiven qwen context raw g e =
      let (parsed, is_parsed, e1) = bind-value (parse_decision qwen.loads raw) _ g e in
      let (d, is_valid, e2) =
        bind-value (validate_qwen_decision host qwen.name parsed context) _ g e1 in
      let stands =
        support_stands host qwen.name parsed (chunks_of context) parsed.supporting_document
          parsed.supporting_page parsed.supporting_excerpt in
      let (accepted, is_it) = refuse_if-value (not stands) (value parsed) d is_valid in
      let support =
        support_of qwen.name d.supporting_document d.supporting_page d.supporting_excerpt context in
      let (valid, made) = checked-value qwen.name (grounded_of d support) g context e2 in
      let same_decision : parsed ≡ d = cc (is_it) in
      let words = λ (q : QwenDecision).
        IsQuoted host (status q) (answer_or q.answer (fallback (status q))) q.supporting_excerpt in
      let decided = parse_decision-IsDecision qwen.loads raw parsed is_parsed in
      let quoted =
        shape-IsQuoted qwen.name (chunks_of context) parsed.answerable parsed.answer
          parsed.confidence parsed.supporting_document parsed.supporting_page
          parsed.supporting_excerpt parsed.ambiguity_reason parsed.extracted_fields decided.shape
          (not-false stands accepted) in
      subst (IsGiven qwen context) made (
        validate_grounded_answer-IsGrounded host qwen.name (grounded_of d support) context valid,
        subst words same_decision quoted,
      )

  completed-IsGiven :
      (qwen : QwenHost) (context : List RankedChunk) (raw : Option Text) (g : GroundedAnswer)
      → completed host qwen context raw ≡ value g
      → IsGiven qwen context g
  unfolding completed
  completed-IsGiven qwen context none g e = cc
  completed-IsGiven qwen context (some raw) g e = answer_of-IsGiven qwen context raw g e

  -- If the provider answers, whatever the model has written, the answer is grounded in the first
  -- `context_passages` of the passages: and its words are in the excerpt, but for case and whitespace, if
  -- it is answered, and one of the two fixed messages if it is ambiguous or an abstention.
  pub answer-IsGrounded :
      (qwen : QwenHost) (question : Text) (ranked : List RankedChunk) (g : GroundedAnswer)
      → answer host qwen question ranked ≡ value g
      → IsGrounded host qwen.name (take qwen.context_passages ranked) g
        × IsQuoted host g.status g.answer g.supporting_excerpt
  unfolding answer
  answer-IsGrounded qwen question ranked g e =
      let context = take qwen.context_passages ranked in
      elim (Option-cases (build_prompt qwen question context)) [
        | inl h ↦ cc (rw (answer, h) at e)
        | inr (prompt, h) ↦
            completed-IsGiven qwen context (qwen.complete prompt) g (rw (answer, h) at e)
      ]
