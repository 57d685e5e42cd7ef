-- ===== src/Trust/Sanitize.antt =====
-- trust_boundaries.py: `_sanitize_document_output` and `sanitize_extraction_payload`.
use evidencedesk.Prelude.{
  ℕ, suc, Text, Bool, true, false, Option, none, some, List, [], ◌∷◌, ◌&&◌, not, ◌==◌,
  if◌then◌else◌, codes,
}
use evidencedesk.Json.{pos, negsuc, Json, Items, nil, cons, Fields, end, field, get}
use evidencedesk.Python.Search.{has_number}
use evidencedesk.Trust.{
  TextHost, is_untrusted_document_instruction, untrusted_document_fragment_indexes,
}

-- `bool(value)`; a float is falsy when it is 0.0 or -0.0.
abbrev pub truthy : Json → Bool
truthy Json.null = false
truthy (Json.boolean b) = b
truthy (Json.integer (pos n)) = not (n == 0)
truthy (Json.integer (negsuc n)) = true
truthy (Json.real bits) = not (bits == 0) && not (bits == 0x8000000000000000)
truthy (Json.text []) = false
truthy (Json.text (c ∷ s)) = true
truthy (Json.array nil) = false
truthy (Json.array (cons v vs)) = true
truthy (Json.object end) = false
truthy (Json.object (field key v fs)) = true

abbrev pub truthy_option : Option Json → Bool
truthy_option none = false
truthy_option (some v) = truthy v

-- `value not in (None, "", [], ())`
abbrev pub has_value : Option Json → Bool
has_value none = false
has_value (some Json.null) = false
has_value (some (Json.text [])) = false
has_value (some (Json.array nil)) = false
has_value (some v) = true

abbrev pub present : Option Json → Bool
present none = false
present (some v) = true

-- The strings of a list, in their order
unfoldable pub direct_strings : Items → List Text
direct_strings nil = []
direct_strings (cons (Json.text s) rest) = s ∷ direct_strings rest
direct_strings (cons v rest) = direct_strings rest

unfoldable pub excerpt_is_untrusted : TextHost → Option Json → Bool
unfolding is_untrusted_document_instruction
excerpt_is_untrusted host (some (Json.text s)) = is_untrusted_document_instruction host s
excerpt_is_untrusted host _ = false

-- The `"value"` and `"citations"` of a field that has lost its citations
unfoldable pub lost_citations : Fields → Fields → Bool
unfolding get
lost_citations fields sanitized =
    present (get (codes "value") fields)
    && present (get (codes "citations") fields)
    && has_value (get (codes "value") sanitized)
    && not (truthy_option (get (codes "citations") sanitized))

unfoldable pub sanitized_object : TextHost → Fields → Fields → Option Json
unfolding excerpt_is_untrusted get lost_citations
sanitized_object host fields sanitized =
    if excerpt_is_untrusted host (get (codes "excerpt") fields)
    then none
    else if lost_citations fields sanitized
    then none
    else some (Json.object sanitized)

unfoldable pub kept_text : TextHost → Text → Option Json
unfolding is_untrusted_document_instruction
kept_text host s = if is_untrusted_document_instruction host s then none else some (Json.text s)

abbrev pub cons_kept : Option Json → Items → Items
cons_kept none rest = rest
cons_kept (some v) rest = cons v rest

abbrev pub field_kept : Text → Option Json → Fields → Fields
field_kept key none rest = rest
field_kept key (some v) rest = field key v rest

-- `_sanitize_document_output`: `none` where it gives `None`. In a list, `index` counts the strings,
-- and those that are blocked are left out.
unfoldable mutual
  unfolding untrusted_document_fragment_indexes direct_strings has_number sanitized_object kept_text

  pub sanitize_document_output : TextHost → Json → Option Json
  sanitize_document_output host (Json.text s) = kept_text host s
  sanitize_document_output host (Json.object fields) =
      sanitized_object host fields (sanitize_fields host fields)
  sanitize_document_output host (Json.array items) = some (
      Json.array (
        sanitize_items host (untrusted_document_fragment_indexes host (direct_strings items)) 0
          items))
  sanitize_document_output host Json.null = none
  sanitize_document_output host v = some v

  pub sanitize_items : TextHost → List ℕ → ℕ → Items → Items
  sanitize_items host blocked index nil = nil
  sanitize_items host blocked index (cons (Json.text s) rest) =
      let others = sanitize_items host blocked (suc index) rest in
      if has_number index blocked then others else cons_kept (kept_text host s) others
  sanitize_items host blocked index (cons v rest) =
      cons_kept (sanitize_document_output host v) (sanitize_items host blocked index rest)

  pub sanitize_fields : TextHost → Fields → Fields
  sanitize_fields host end = end
  sanitize_fields host (field key v rest) =
      field_kept key (sanitize_document_output host v) (sanitize_fields host rest)

-- `sanitize_extraction_payload`
unfoldable pub sanitize_extraction_payload : TextHost → Fields → Fields
unfolding sanitize_fields
sanitize_extraction_payload host payload = sanitize_fields host payload
