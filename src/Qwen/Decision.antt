-- ===== src/Qwen/Decision.antt =====
-- qwen_answering.py: `_parse_decision`, and the status of a decision.
use evidencedesk.Prelude.{
  ℕ, zero, suc, ◌+◌, ◌-◌, ◌*◌, Text, Bool, true, false, Option, none, some, List, [], ◌∷◌, ◌&&◌,
  ◌||◌, not, leb, ltb, if◌then◌else◌, codes, is_some,
}
use Prim.Native.Nat.{◌^◌}
use evidencedesk.Json.{ℤ, pos, negsuc, Json, Items, nil, cons, Fields, end, field, get}
use evidencedesk.Python.Strings.{same, is_blank}
use evidencedesk.Processing.Chunking.{is_empty}
use evidencedesk.Answering.{AnswerStatus, FieldValue, one, many}
use evidencedesk.Answering.Validate.{in_unit, has_text, none_left, any}
use evidencedesk.Qwen.{
  Outcome, value, decision_error, exception, ◌>>=◌, Loaded, loaded, not_json, failed, QwenDecision,
}

-- `QwenDecision.status`
unfoldable pub status : QwenDecision → AnswerStatus
status d =
    if d.answerable
    then AnswerStatus.answered
    else if has_text d.ambiguity_reason
    then AnswerStatus.ambiguous
    else AnswerStatus.abstained

-- `_text_or_none`
unfoldable pub text_or_none : Json → Outcome (Option Text)
text_or_none Json.null = value none
text_or_none (Json.text s) = value (some s)
text_or_none v = decision_error

-- The strings of an array that has nothing else
unfoldable pub strings_of : Items → Option (List Text)
strings_of nil = some []
strings_of (cons (Json.text s) rest) = elim (strings_of rest) [
  | none ↦ none
  | some parts ↦ some (s ∷ parts)
]
strings_of (cons v rest) = none

unfoldable pub field_value : Json → Outcome FieldValue
unfolding strings_of
field_value (Json.text s) = value (one s)
field_value (Json.array items) = elim (strings_of items) [
  | none ↦ decision_error
  | some parts ↦ value (many parts)
]
field_value v = decision_error

abbrev pub refuse_if : {A : Type 0} → Bool → Outcome A → Outcome A
refuse_if true rest = decision_error
refuse_if false rest = rest

-- The loop of `_field_values`
unfoldable pub fields_from : Fields → Outcome (List (Text × FieldValue))
unfolding field_value
fields_from end = value []
fields_from (field key v rest) =
    let others = fields_from rest in
    refuse_if (is_empty key)
      (field_value v >>= λ first. others >>= λ fields. value ((key, first) ∷ fields))

-- `_field_values`
unfoldable pub field_values : Json → Outcome (List (Text × FieldValue))
unfolding fields_from
field_values (Json.object fields) = fields_from fields
field_values v = decision_error

abbrev required_keys : List Text
required_keys =
    codes "answerable"
    ∷ codes "answer"
    ∷ codes "confidence"
    ∷ codes "supporting_document"
    ∷ codes "supporting_page"
    ∷ codes "supporting_excerpt"
    ∷ codes "ambiguity_reason"
    ∷ codes "extracted_fields"
    ∷ []

-- `keys - _REQUIRED_KEYS`
unfoldable pub has_unexpected : Fields → Bool
unfolding any same
has_unexpected end = false
has_unexpected (field key v rest) = not (any (same key) required_keys) || has_unexpected rest

abbrev pub the_boolean : Json → Outcome Bool
the_boolean (Json.boolean b) = value b
the_boolean v = decision_error

-- `float(n)` is between 0 and 1 for 0 and 1 alone, and an `OverflowError` from 2 ^ 1024 - 2 ^ 970 on, the
-- half of the last step below 2 ^ 1024.
abbrev pub float_limit : ℕ
float_limit = (2 ^ 54 - 1) * 2 ^ 970

abbrev pub confidence_of_integer : ℤ → Outcome ℕ
confidence_of_integer (pos zero) = value 0
confidence_of_integer (pos (suc zero)) = value 0x3ff0000000000000
confidence_of_integer (pos n) = if leb float_limit n then exception else decision_error
confidence_of_integer (negsuc n) = if leb float_limit (n + 1) then exception else decision_error

-- The tests of `confidence`, and `float(confidence)`
abbrev pub the_confidence : Json → Outcome ℕ
the_confidence (Json.integer z) = confidence_of_integer z
the_confidence (Json.real bits) = if in_unit bits then value bits else decision_error
the_confidence v = decision_error

-- The test of `supporting_page`
abbrev pub the_page : Json → Outcome (Option ℕ)
the_page Json.null = value none
the_page (Json.integer (pos n)) = if ltb n 1 then decision_error else value (some n)
the_page v = decision_error

-- The tests of the finished decision
unfoldable pub unanswered_answer : QwenDecision → Bool
unfolding is_blank
unanswered_answer d = d.answerable && elim d.answer [ none ↦ true | some s ↦ is_blank s ]

abbrev pub answered_doubt : QwenDecision → Bool
answered_doubt d = d.answerable && is_some d.ambiguity_reason

abbrev pub abstained_support : QwenDecision → Bool
abstained_support d =
    not d.answerable
    && not (is_some d.ambiguity_reason)
    && (is_some d.answer
        || is_some d.supporting_document
        || is_some d.supporting_page
        || is_some d.supporting_excerpt
        || not (none_left d.extracted_fields))

abbrev pub ambiguous_answer : QwenDecision → Bool
ambiguous_answer d = not d.answerable && is_some d.ambiguity_reason && is_some d.answer

unfoldable pub consistent : QwenDecision → Outcome QwenDecision
unfolding unanswered_answer
consistent d = refuse_if (unanswered_answer d) (
    refuse_if (answered_doubt d)
      (refuse_if (abstained_support d) (refuse_if (ambiguous_answer d) (value d))))

-- The value of a required key; where it is missing, the keys are refused.
abbrev pub required : {A : Type 0} → Text → Fields → (Json → Outcome A) → Outcome A
unfolding get
required key fields f = elim (get key fields) [ none ↦ decision_error | some v ↦ f v ]

unfoldable pub lacks_required : Fields → Bool
unfolding any get
lacks_required fields = any (λ key. not (is_some (get key fields))) required_keys

-- `_parse_decision` on an object that has the required keys and no others
unfoldable pub decision_of : Fields → Outcome QwenDecision
unfolding text_or_none field_values consistent get
decision_of fields = required (codes "answerable") fields the_boolean >>= λ answerable.
    required (codes "confidence") fields the_confidence >>= λ confidence.
    required (codes "supporting_page") fields the_page >>= λ page.
    required (codes "answer") fields text_or_none >>= λ answer.
    required (codes "supporting_document") fields text_or_none >>= λ document.
    required (codes "supporting_excerpt") fields text_or_none >>= λ excerpt.
    required (codes "ambiguity_reason") fields text_or_none >>= λ reason.
    required (codes "extracted_fields") fields field_values >>= λ extracted. consistent (record {
      answerable = answerable;
      answer = answer;
      confidence = confidence;
      supporting_document = document;
      supporting_page = page;
      supporting_excerpt = excerpt;
      ambiguity_reason = reason;
      extracted_fields = extracted;
    })

unfoldable pub decision_of_json : Json → Outcome QwenDecision
unfolding has_unexpected lacks_required decision_of
decision_of_json (Json.object fields) =
    refuse_if (has_unexpected fields) (refuse_if (lacks_required fields) (decision_of fields))
decision_of_json v = decision_error

unfoldable pub decision_of_loaded : Loaded → Outcome QwenDecision
unfolding decision_of_json
decision_of_loaded (loaded v) = decision_of_json v
decision_of_loaded not_json = decision_error
decision_of_loaded failed = exception

-- `_parse_decision`; `loads` is `json.loads`.
unfoldable pub parse_decision : (Text → Loaded) → Text → Outcome QwenDecision
unfolding decision_of_loaded
parse_decision loads raw = decision_of_loaded (loads raw)
