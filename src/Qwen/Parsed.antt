-- ===== src/Qwen/Parsed.antt =====
-- qwen_answering.py: the decisions that `_parse_decision` gives.
use evidencedesk.Prelude.{
  ℕ, zero, suc, ◌≤◌, Text, Bool, true, false, Option, none, some, List, [], ◌∷◌, ◌≡◌, refl, subst,
  arith, ltb, if◌then◌else◌, Bool-cases, inl, inr, codes,
}
use evidencedesk.Json.{pos, negsuc, Json, Fields, get}
use evidencedesk.Python.Strings.{is_blank}
use evidencedesk.Answering.{FieldValue}
use evidencedesk.Answering.Validate.{in_unit}
use evidencedesk.Qwen.{
  Outcome, value, decision_error, grounding_error, exception, ◌>>=◌, Loaded, loaded, not_json,
  failed, QwenDecision,
}
use evidencedesk.Qwen.Decision.{
  refuse_if, the_boolean, text_or_none, field_values, the_confidence, the_page, unanswered_answer,
  answered_doubt, abstained_support, ambiguous_answer, consistent, required, has_unexpected,
  lacks_required, decision_of, decision_of_json, decision_of_loaded, parse_decision,
}

pub bind-value :
    {A B : Type 0} (m : Outcome A) (f : A → Outcome B) (b : B)
    → (m >>= f) ≡ value b
    → (a : A) × (m ≡ value a) × (f a ≡ value b)
bind-value (value a) f b e = (a, refl, e)
bind-value decision_error f b e = cc
bind-value grounding_error f b e = cc
bind-value exception f b e = cc

pub refuse_if-value :
    {A : Type 0} (refused : Bool) (rest : Outcome A) (a : A)
    → refuse_if refused rest ≡ value a
    → (refused ≡ false) × (rest ≡ value a)
refuse_if-value true rest a e = cc
refuse_if-value false rest a e = (refl, e)

required-value :
    {A : Type 0} (key : Text) (fields : Fields) (f : Json → Outcome A) (a : A)
    → required key fields f ≡ value a
    → (v : Json) × (f v ≡ value a)
unfolding get
required-value key fields f a e = go (get key fields) e
  where
    go :
        (o : Option Json)
        → (elim o [ none ↦ decision_error | some v ↦ f v ]) ≡ value a
        → (v : Json) × (f v ≡ value a)
    go none e = cc
    go (some v) e = (v, e)

-- An answer that is not blank and no doubt; nothing at all; or a doubt and no answer.
abbrev pub HasShape : Bool → Option Text → QwenDecision → Type 0
HasShape true none d = (a : Text) × (d.answer ≡ some a) × (is_blank a ≡ false)
HasShape true (some reason) d = ⊥
HasShape false none d =
    (d.answer ≡ none)
    × (d.supporting_document ≡ none)
    × (d.supporting_page ≡ none)
    × (d.supporting_excerpt ≡ none)
    × (d.extracted_fields ≡ [])
HasShape false (some reason) d = d.answer ≡ none

abbrev pub IsPage : Option ℕ → Type 0
IsPage none = Unit
IsPage (some n) = 1 ≤ n

pub record IsDecision (d : QwenDecision) : Type 0 where
  pub confidence : in_unit d.confidence ≡ true
  pub page : IsPage d.supporting_page
  pub shape : HasShape d.answerable d.ambiguity_reason d

shape_lem :
    (answerable : Bool) (answer : Option Text) (confidence : ℕ) (document : Option Text)
    (page : Option ℕ) (excerpt reason : Option Text) (fields : List (Text × FieldValue))
    → let d : QwenDecision = record {
      answerable = answerable;
      answer = answer;
      confidence = confidence;
      supporting_document = document;
      supporting_page = page;
      supporting_excerpt = excerpt;
      ambiguity_reason = reason;
      extracted_fields = fields;
    } in
      unanswered_answer d ≡ false
      → answered_doubt d ≡ false
      → abstained_support d ≡ false
      → ambiguous_answer d ≡ false
      → HasShape answerable reason d
unfolding unanswered_answer
shape_lem true (some a) c document page excerpt none fields h1 h2 h3 h4 = (a, refl, h1)
shape_lem true none c document page excerpt none fields h1 h2 h3 h4 = cc
shape_lem true answer c document page excerpt (some r) fields h1 h2 h3 h4 = cc
shape_lem false none c document page excerpt (some r) fields h1 h2 h3 h4 = refl
shape_lem false (some a) c document page excerpt (some r) fields h1 h2 h3 h4 = cc
shape_lem false none c none none none none [] h1 h2 h3 h4 = (refl, refl, refl, refl, refl)
shape_lem false (some a) c document page excerpt none fields h1 h2 h3 h4 = cc
shape_lem false none c (some x) page excerpt none fields h1 h2 h3 h4 = cc
shape_lem false none c none (some x) excerpt none fields h1 h2 h3 h4 = cc
shape_lem false none c none none (some x) none fields h1 h2 h3 h4 = cc
shape_lem false none c none none none none (f ∷ fields) h1 h2 h3 h4 = cc

consistent-IsDecision :
    (made d : QwenDecision)
    → in_unit made.confidence ≡ true
    → IsPage made.supporting_page
    → consistent made ≡ value d
    → IsDecision d
unfolding consistent
consistent-IsDecision made d c p e =
    let (h1, e1) = refuse_if-value (unanswered_answer made) _ d e in
    let (h2, e2) = refuse_if-value (answered_doubt made) _ d e1 in
    let (h3, e3) = refuse_if-value (abstained_support made) _ d e2 in
    let (h4, e4) = refuse_if-value (ambiguous_answer made) (value made) d e3 in
    subst IsDecision (cc (e4)) (record {
      confidence = c;
      page = p;
      shape =
          shape_lem made.answerable made.answer made.confidence made.supporting_document
            made.supporting_page made.supporting_excerpt made.ambiguity_reason made.extracted_fields
            h1 h2 h3 h4;
    })

too_large :
    (bits : ℕ) (overflows : Bool)
    → (if overflows then exception else decision_error) ≡ value bits
    → ⊥
too_large bits true e = cc
too_large bits false e = cc

the_confidence_unit : (v : Json) (bits : ℕ) → the_confidence v ≡ value bits → in_unit bits ≡ true
the_confidence_unit Json.null bits e = cc
the_confidence_unit (Json.boolean b) bits e = cc
the_confidence_unit (Json.text s) bits e = cc
the_confidence_unit (Json.array vs) bits e = cc
the_confidence_unit (Json.object fs) bits e = cc
the_confidence_unit (Json.integer (pos zero)) bits e =
    let same_bits : 0 ≡ bits = cc in rw (← same_bits) refl
the_confidence_unit (Json.integer (pos (suc zero))) bits e =
    let same_bits : 0x3ff0000000000000 ≡ bits = cc in rw (← same_bits) refl
the_confidence_unit (Json.integer (pos (suc (suc n)))) bits e = absurd (too_large bits _ e)
the_confidence_unit (Json.integer (negsuc n)) bits e = absurd (too_large bits _ e)
the_confidence_unit (Json.real r) bits e = elim (Bool-cases (in_unit r)) [
  | inl h ↦ let same_bits : r ≡ bits = cc (rw h at e) in rw (← same_bits) h
  | inr h ↦ cc (rw h at e)
]

the_page_lem : (v : Json) (page : Option ℕ) → the_page v ≡ value page → IsPage page
the_page_lem Json.null page e = let it : none ≡ page = cc in subst IsPage it tt
the_page_lem (Json.boolean b) page e = cc
the_page_lem (Json.text s) page e = cc
the_page_lem (Json.array vs) page e = cc
the_page_lem (Json.object fs) page e = cc
the_page_lem (Json.real r) page e = cc
the_page_lem (Json.integer (negsuc n)) page e = cc
the_page_lem (Json.integer (pos n)) page e = elim (Bool-cases (ltb n 1)) [
  | inl h ↦ cc (rw h at e)
  | inr h ↦ let it : some n ≡ page = cc (rw h at e) in subst IsPage it (ground arith)
]

decision_of-IsDecision :
    (fields : Fields) (d : QwenDecision) → decision_of fields ≡ value d → IsDecision d
unfolding decision_of
decision_of-IsDecision fields d e =
    let (answerable, _, e1) = bind-value (required (codes "answerable") fields the_boolean) _ d e in
    let (confidence, c, e2) =
      bind-value (required (codes "confidence") fields the_confidence) _ d e1 in
    let (page, p, e3) = bind-value (required (codes "supporting_page") fields the_page) _ d e2 in
    let (answer, _, e4) = bind-value (required (codes "answer") fields text_or_none) _ d e3 in
    let (document, _, e5) =
      bind-value (required (codes "supporting_document") fields text_or_none) _ d e4 in
    let (excerpt, _, e6) =
      bind-value (required (codes "supporting_excerpt") fields text_or_none) _ d e5 in
    let (reason, _, e7) =
      bind-value (required (codes "ambiguity_reason") fields text_or_none) _ d e6 in
    let (extracted, _, e8) =
      bind-value (required (codes "extracted_fields") fields field_values) _ d e7 in
    let (of_unit, in_range) =
      required-value (codes "confidence") fields the_confidence confidence c in
    let (of_page, on_page) = required-value (codes "supporting_page") fields the_page page p in
    let made : QwenDecision = record {
      answerable = answerable;
      answer = answer;
      confidence = confidence;
      supporting_document = document;
      supporting_page = page;
      supporting_excerpt = excerpt;
      ambiguity_reason = reason;
      extracted_fields = extracted;
    } in
    consistent-IsDecision made d (the_confidence_unit of_unit confidence in_range)
      (the_page_lem of_page page on_page) e8

decision_of_json-IsDecision :
    (v : Json) (d : QwenDecision) → decision_of_json v ≡ value d → IsDecision d
unfolding decision_of_json
decision_of_json-IsDecision (Json.object fields) d e =
    let (_, e1) = refuse_if-value (has_unexpected fields) _ d e in
    let (_, e2) = refuse_if-value (lacks_required fields) (decision_of fields) d e1 in
    decision_of-IsDecision fields d e2
decision_of_json-IsDecision Json.null d e = cc
decision_of_json-IsDecision (Json.boolean b) d e = cc
decision_of_json-IsDecision (Json.text s) d e = cc
decision_of_json-IsDecision (Json.array vs) d e = cc
decision_of_json-IsDecision (Json.integer n) d e = cc
decision_of_json-IsDecision (Json.real r) d e = cc

decision_of_loaded-IsDecision :
    (l : Loaded) (d : QwenDecision) → decision_of_loaded l ≡ value d → IsDecision d
unfolding decision_of_loaded
decision_of_loaded-IsDecision (loaded v) d e = decision_of_json-IsDecision v d e
decision_of_loaded-IsDecision not_json d e = cc
decision_of_loaded-IsDecision failed d e = cc

-- A decision that `_parse_decision` gives has a confidence between 0 and 1 and a page, if any, from 1 on.
-- It is answerable with an answer that is not blank and no reason for doubt, or it is not and has
-- neither answer nor support nor fields, or it gives a reason and no answer.
pub parse_decision-IsDecision :
    (loads : Text → Loaded) (raw : Text) (d : QwenDecision)
    → parse_decision loads raw ≡ value d
    → IsDecision d
unfolding parse_decision
parse_decision-IsDecision loads raw d e = decision_of_loaded-IsDecision (loads raw) d e
