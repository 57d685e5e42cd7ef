-- ===== src/Qwen.antt =====
-- apps/api/evidencedesk_api/qwen_answering.py: what a local language model decides, and how it is checked.
pub mod Decision
pub mod Parsed
pub mod Support
pub mod Provider
pub mod Grounded
use evidencedesk.Prelude.{ℕ, Text, Bool, Option, List}
use evidencedesk.Json.{Json}
use evidencedesk.Answering.{FieldValue}

-- How a call ends: with a value, by `QwenDecisionError`, by `GroundingValidationError`, or by any other
-- exception.
pub data Outcome (A : Type 0) : Type 0 where
  value : A → Outcome A
  decision_error grounding_error exception : Outcome A

infixl 5 ◌>>=◌
abbrev pub ◌>>=◌ : {A B : Type 0} → Outcome A → (A → Outcome B) → Outcome B
value a >>= f = f a
decision_error >>= f = decision_error
grounding_error >>= f = grounding_error
exception >>= f = exception

-- How `json.loads` ends: with a value, by `JSONDecodeError`, or by any other exception.
pub data Loaded : Type 0 where
  loaded : Json → Loaded
  not_json failed : Loaded

pub record QwenDecision : Type 0 where
  pub answerable : Bool
  pub answer : Option Text
  pub confidence : ℕ
  pub supporting_document : Option Text
  pub supporting_page : Option ℕ
  pub supporting_excerpt : Option Text
  pub ambiguity_reason : Option Text
  pub extracted_fields : List (Text × FieldValue)
