-- ===== src/Trust/Sanitized.antt =====
-- trust_boundaries.py: the strings in what `sanitize_extraction_payload` gives.
use evidencedesk.Prelude.{
  ℕ, suc, Text, false, Option, none, some, List, ◌≡◌, Bool-cases, inl, inr, codes,
}
use evidencedesk.Json.{Json, Items, nil, cons, Fields, end, field, get}
use evidencedesk.Python.Search.{has_number}
use evidencedesk.Trust.{
  TextHost, is_untrusted_document_instruction, untrusted_document_fragment_indexes,
}
use evidencedesk.Trust.Sanitize.{
  direct_strings, excerpt_is_untrusted, lost_citations, sanitized_object, kept_text, cons_kept,
  field_kept, sanitize_document_output, sanitize_items, sanitize_fields,
  sanitize_extraction_payload,
}

-- No string in the value, at any depth, is taken for an instruction. The keys of objects do not count.
unfoldable mutual
  pub IsClean : TextHost → Json → Type 0
  IsClean host (Json.text s) = is_untrusted_document_instruction host s ≡ false
  IsClean host (Json.array items) = AreClean host items
  IsClean host (Json.object fields) = FieldsAreClean host fields
  IsClean host v = Unit

  pub AreClean : TextHost → Items → Type 0
  AreClean host nil = Unit
  AreClean host (cons v rest) = IsClean host v × AreClean host rest

  pub FieldsAreClean : TextHost → Fields → Type 0
  FieldsAreClean host end = Unit
  FieldsAreClean host (field key v rest) = IsClean host v × FieldsAreClean host rest

abbrev OptionIsClean : TextHost → Option Json → Type 0
unfolding IsClean
OptionIsClean host none = Unit
OptionIsClean host (some v) = IsClean host v

module _ (host : TextHost) where
  kept_text-IsClean : (s : Text) → OptionIsClean host (kept_text host s)
  unfolding IsClean kept_text
  kept_text-IsClean s = elim (Bool-cases (is_untrusted_document_instruction host s)) [
    | inl e ↦ rw e tt
    | inr e ↦ rw e e
  ]

  cons_kept-AreClean :
      (v : Option Json) (rest : Items)
      → OptionIsClean host v
      → AreClean host rest
      → AreClean host (cons_kept v rest)
  unfolding AreClean
  cons_kept-AreClean none rest h hs = hs
  cons_kept-AreClean (some v) rest h hs = (h, hs)

  field_kept-FieldsAreClean :
      (key : Text) (v : Option Json) (rest : Fields)
      → OptionIsClean host v
      → FieldsAreClean host rest
      → FieldsAreClean host (field_kept key v rest)
  unfolding FieldsAreClean
  field_kept-FieldsAreClean key none rest h hs = hs
  field_kept-FieldsAreClean key (some v) rest h hs = (h, hs)

  sanitized_object-IsClean :
      (fields sanitized : Fields)
      → FieldsAreClean host sanitized
      → OptionIsClean host (sanitized_object host fields sanitized)
  unfolding IsClean sanitized_object
  sanitized_object-IsClean fields sanitized h =
      elim (Bool-cases (excerpt_is_untrusted host (get (codes "excerpt") fields))) [
        | inl e ↦ rw e tt
        | inr e ↦ rw e (elim (Bool-cases (lost_citations fields sanitized)) [
          | inl f ↦ rw f tt
          | inr f ↦ rw f h
        ])
      ]

  mutual
    unfolding sanitize_document_output IsClean

    sanitize_document_output-IsClean :
        (v : Json) → OptionIsClean host (sanitize_document_output host v)
    sanitize_document_output-IsClean Json.null = tt
    sanitize_document_output-IsClean (Json.boolean b) = tt
    sanitize_document_output-IsClean (Json.integer z) = tt
    sanitize_document_output-IsClean (Json.real r) = tt
    sanitize_document_output-IsClean (Json.text s) = kept_text-IsClean s
    sanitize_document_output-IsClean (Json.array items) =
        sanitize_items-AreClean (untrusted_document_fragment_indexes host (direct_strings items)) 0
          items
    sanitize_document_output-IsClean (Json.object fields) =
        sanitized_object-IsClean fields (sanitize_fields host fields)
          (sanitize_fields-FieldsAreClean fields)

    sanitize_items-AreClean :
        (blocked : List ℕ) (index : ℕ) (items : Items)
        → AreClean host (sanitize_items host blocked index items)
    sanitize_items-AreClean blocked index nil = tt
    sanitize_items-AreClean blocked index (cons (Json.text s) rest) =
        elim (Bool-cases (has_number index blocked)) [
          | inl e ↦ rw e (sanitize_items-AreClean blocked (suc index) rest)
          | inr e ↦ rw e (
              cons_kept-AreClean (kept_text host s) _ (kept_text-IsClean s)
                (sanitize_items-AreClean blocked (suc index) rest))
        ]
    sanitize_items-AreClean blocked index (cons Json.null rest) =
        sanitize_items-AreClean blocked index rest
    sanitize_items-AreClean blocked index (cons (Json.boolean b) rest) =
        (tt, sanitize_items-AreClean blocked index rest)
    sanitize_items-AreClean blocked index (cons (Json.integer z) rest) =
        (tt, sanitize_items-AreClean blocked index rest)
    sanitize_items-AreClean blocked index (cons (Json.real r) rest) =
        (tt, sanitize_items-AreClean blocked index rest)
    sanitize_items-AreClean blocked index (cons (Json.array items) rest) =
        cons_kept-AreClean (sanitize_document_output host (Json.array items)) _
          (sanitize_document_output-IsClean (Json.array items))
          (sanitize_items-AreClean blocked index rest)
    sanitize_items-AreClean blocked index (cons (Json.object fields) rest) =
        cons_kept-AreClean (sanitize_document_output host (Json.object fields)) _
          (sanitize_document_output-IsClean (Json.object fields))
          (sanitize_items-AreClean blocked index rest)

    sanitize_fields-FieldsAreClean :
        (fields : Fields) → FieldsAreClean host (sanitize_fields host fields)
    sanitize_fields-FieldsAreClean end = tt
    sanitize_fields-FieldsAreClean (field key v rest) =
        field_kept-FieldsAreClean key (sanitize_document_output host v) _
          (sanitize_document_output-IsClean v) (sanitize_fields-FieldsAreClean rest)

  -- What `sanitize_extraction_payload` gives has no string as a value, at any depth, that is taken for
  -- an instruction. The keys of objects are passed on as they are.
  pub sanitize_extraction_payload-IsClean :
      (payload : Fields) → FieldsAreClean host (sanitize_extraction_payload host payload)
  unfolding sanitize_extraction_payload
  sanitize_extraction_payload-IsClean payload = sanitize_fields-FieldsAreClean payload
