-- ===== src/Answering/Trusted.antt =====
-- answering.py: what `validate_grounded_answer` tests for instructions, named part by part.
use evidencedesk.Prelude.{Text, false, Option, none, some, List, [], ◌∷◌, ◌++◌, ◌≡◌, All, All-split}
use evidencedesk.Trust.{TextHost, is_untrusted_document_instruction}
use evidencedesk.Answering.{
  FieldValue, one, many, Citation, PassageCandidateAssessment, GroundedAnswer,
}
use evidencedesk.Answering.Validate.{
  optional, parts_of, excerpts, field_texts, assessment_texts, unsafe_channels,
}

module _ (host : TextHost) where
  abbrev pub IsTrusted : Text → Type 0
  IsTrusted s = is_untrusted_document_instruction host s ≡ false

  abbrev pub OptionIsTrusted : Option Text → Type 0
  OptionIsTrusted none = Unit
  OptionIsTrusted (some s) = IsTrusted s

  abbrev pub FieldIsTrusted : Text × FieldValue → Type 0
  FieldIsTrusted (name, one s) = IsTrusted s
  FieldIsTrusted (name, many parts) = All IsTrusted parts

  pub record AssessmentIsTrusted (a : PassageCandidateAssessment) : Type 0 where
    pub answer : OptionIsTrusted a.answer
    pub excerpt : OptionIsTrusted a.supporting_excerpt
    pub fields : All FieldIsTrusted a.extracted_fields

  -- The answer, the excerpts, and the values of the fields, also those of the assessments
  pub record AnswerIsTrusted (g : GroundedAnswer) : Type 0 where
    pub answer : IsTrusted g.answer
    pub excerpt : OptionIsTrusted g.supporting_excerpt
    pub citations : All (λ (c : Citation). IsTrusted c.excerpt) g.citations
    pub fields : All FieldIsTrusted g.extracted_fields
    pub assessments : All AssessmentIsTrusted g.candidate_assessments

  optional-IsTrusted : (o : Option Text) → All IsTrusted (optional o) → OptionIsTrusted o
  optional-IsTrusted none h = tt
  optional-IsTrusted (some s) h = h.0

  excerpts-IsTrusted :
      (cs : List Citation)
      → All IsTrusted (excerpts cs)
      → All (λ (c : Citation). IsTrusted c.excerpt) cs
  unfolding excerpts
  excerpts-IsTrusted [] h = tt
  excerpts-IsTrusted (c ∷ cs) (h, hs) = (h, excerpts-IsTrusted cs hs)

  parts-IsTrusted :
      (name : Text) (v : FieldValue) → All IsTrusted (parts_of v) → FieldIsTrusted (name, v)
  parts-IsTrusted name (one s) h = h.0
  parts-IsTrusted name (many parts) h = h

  fields-IsTrusted :
      (fs : List (Text × FieldValue)) → All IsTrusted (field_texts fs) → All FieldIsTrusted fs
  unfolding field_texts
  fields-IsTrusted [] h = tt
  fields-IsTrusted ((name, v) ∷ fs) h =
      let (a, b) = All-split IsTrusted (parts_of v) (field_texts fs) h in
      (parts-IsTrusted name v a, fields-IsTrusted fs b)

  assessments-IsTrusted :
      (xs : List PassageCandidateAssessment)
      → All IsTrusted (assessment_texts xs)
      → All AssessmentIsTrusted xs
  unfolding assessment_texts
  assessments-IsTrusted [] h = tt
  assessments-IsTrusted (a ∷ xs) h =
      let said = optional a.answer in
      let quoted = optional a.supporting_excerpt in
      let (abc, d) =
        All-split IsTrusted (said ++ quoted ++ field_texts a.extracted_fields) (assessment_texts xs)
          h in
      let (ab, c) = All-split IsTrusted (said ++ quoted) (field_texts a.extracted_fields) abc in
      let (x, y) = All-split IsTrusted said quoted ab in
      (
        record {
          answer = optional-IsTrusted a.answer x;
          excerpt = optional-IsTrusted a.supporting_excerpt y;
          fields = fields-IsTrusted a.extracted_fields c;
        },
        assessments-IsTrusted xs d,
      )

  pub channels-IsTrusted :
      (g : GroundedAnswer) → All IsTrusted (unsafe_channels g) → AnswerIsTrusted g
  unfolding unsafe_channels
  channels-IsTrusted g h =
      let shown = g.answer ∷ optional g.supporting_excerpt in
      let quotes = excerpts g.citations in
      let values = field_texts g.extracted_fields in
      let (abc, d) =
        All-split IsTrusted (shown ++ quotes ++ values) (assessment_texts g.candidate_assessments)
          h in
      let (ab, c) = All-split IsTrusted (shown ++ quotes) values abc in
      let (a, b) = All-split IsTrusted shown quotes ab in
      record {
        answer = a.0;
        excerpt = optional-IsTrusted g.supporting_excerpt a.1;
        citations = excerpts-IsTrusted g.citations b;
        fields = fields-IsTrusted g.extracted_fields c;
        assessments = assessments-IsTrusted g.candidate_assessments d;
      }
