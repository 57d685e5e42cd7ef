-- ===== src/Processing.antt =====
-- apps/api/evidencedesk_api/processing.py: parsed pages, document chunks, and how a call that may
-- raise ends.
pub mod Chunking
pub mod Pdf
pub mod Parse
pub mod Pages
pub mod Ink
pub mod Bounds
pub mod Plain
use evidencedesk.Prelude.{ℕ, Text, Option, List}
use evidencedesk.Db.{ErrorCode}

-- How a call ends: with a value, by `DocumentParseError(code)`, or by any other exception.
pub data Attempt (A : Type 0) : Type 0 where
  value : A → Attempt A
  parse_error : ErrorCode → Attempt A
  exception : Attempt A

pub record Block : Type 0 where
  pub section : Option Text
  pub text : Text

pub record ParsedPage : Type 0 where
  pub page : ℕ
  pub blocks : List Block

pub record DocumentChunk : Type 0 where
  pub page : ℕ
  pub section : Option Text
  pub ordinal : ℕ
  pub text : Text

infixl 5 ◌>>=◌
abbrev pub ◌>>=◌ : {A B : Type 0} → Attempt A → (A → Attempt B) → Attempt B
value a >>= f = f a
parse_error c >>= f = parse_error c
exception >>= f = exception
