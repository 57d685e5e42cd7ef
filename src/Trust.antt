-- ===== src/Trust.antt =====
-- apps/api/evidencedesk_api/trust_boundaries.py: which text of a document is taken for an instruction.
pub mod Sanitize
pub mod Fragments
pub mod Sanitized
pub mod Prompt
use evidencedesk.Prelude.{
  ℕ, suc, ◌+◌, ◌-◌, Text, Bool, true, false, Option, none, some, List, [], ◌∷◌, ◌++◌, ◌&&◌, ◌||◌,
  not, leb, ltb, ◌==◌, if◌then◌else◌, map, codes, ◌≡◌, refl,
}
use evidencedesk.Python.Strings.{same, is_blank}
use evidencedesk.Python.Search.{has_number, joined}
use evidencedesk.Processing.Chunking.{add_word}

-- The compiled patterns
pub data Pattern : Type 0 where
  untrusted_label override fake_authority authority_steering expected_answer : Pattern
  answer_steering override_steering imperative_output assistant_obligation_steering : Pattern
  system_obligation_steering sensitive_disclosure security_prohibition : Pattern

-- What `re` and `unicodedata` do: `pattern.search`, `category(c) == "Cf"`, `casefold`, `normalize("NFKD")`.
pub record TextHost : Type 0 where
  pub search : Pattern → Text → Bool
  pub is_format : ℕ → Bool
  pub casefold : Text → Text
  pub nfkd : Text → Text

-- `_CONFUSABLES`
abbrev confusables : List (ℕ × ℕ)
confusables =
    (0x0430, b'a')
    ∷ (0x0435, b'e')
    ∷ (0x0456, b'i')
    ∷ (0x0458, b'j')
    ∷ (0x043a, b'k')
    ∷ (0x043c, b'm')
    ∷ (0x043d, b'h')
    ∷ (0x043e, b'o')
    ∷ (0x0440, b'p')
    ∷ (0x0441, b'c')
    ∷ (0x0442, b't')
    ∷ (0x0443, b'y')
    ∷ (0x0445, b'x')
    ∷ (0x03b1, b'a')
    ∷ (0x03b2, b'b')
    ∷ (0x03b5, b'e')
    ∷ (0x03b6, b'z')
    ∷ (0x03b7, b'h')
    ∷ (0x03b9, b'i')
    ∷ (0x03ba, b'k')
    ∷ (0x03bc, b'm')
    ∷ (0x03bd, b'n')
    ∷ (0x03bf, b'o')
    ∷ (0x03c1, b'p')
    ∷ (0x03c4, b't')
    ∷ (0x03c5, b'y')
    ∷ (0x03c7, b'x')
    ∷ []

unfoldable pub replaced_by : List (ℕ × ℕ) → ℕ → ℕ
replaced_by [] c = c
replaced_by ((from, to) ∷ rest) c =
    let later = replaced_by rest c in if c == from then to else later

-- The characters for which a test holds
unfoldable pub keep : (ℕ → Bool) → Text → Text
keep f [] = []
keep f (c ∷ s) = let rest = keep f s in if f c then c ∷ rest else rest

abbrev is_ascii_word : ℕ → Bool
is_ascii_word c = (leb b'a' c && leb c b'z') || (leb b'0' c && leb c b'9')

-- `re.sub(r"[^a-z0-9]+", " ", s).strip()` as its words: the one that the text starts with, and the others
unfoldable pub ascii_words_from : Text → Text × List Text
ascii_words_from [] = ([], [])
ascii_words_from (c ∷ s) =
    let (w, rest) = ascii_words_from s in
    if is_ascii_word c then (c ∷ w, rest) else ([], add_word w rest)

unfoldable pub ascii_words : Text → List Text
unfolding ascii_words_from
ascii_words s = let (w, rest) = ascii_words_from s in add_word w rest

abbrev before_rejoined : Text → List Text → List Text
unfolding same
before_rejoined w [] = w ∷ []
before_rejoined w (v ∷ rest) =
    if same w (codes "over") && same v (codes "ride") then codes "override" ∷ rest else w ∷ v ∷ rest

-- `re.sub(r"\bover\s+ride\b", "override", words)` on the words. No word is in two matches, so the order
-- in which they are replaced is the same from the right.
unfoldable pub rejoin_override : List Text → List Text
unfolding same
rejoin_override [] = []
rejoin_override (w ∷ rest) = before_rejoined w (rejoin_override rest)

-- `_fold`
unfoldable pub fold : TextHost → Text → Text
unfolding keep replaced_by ascii_words rejoin_override joined
fold host text =
    let canonical =
      map (replaced_by confusables) (host.casefold (keep (λ c. not (host.is_format c)) text)) in
    let ascii_value = keep (λ c. ltb c 128) (host.nfkd canonical) in
    joined b' ' (rejoin_override (ascii_words ascii_value))

unfoldable pub steers : TextHost → Text → Bool
steers host folded =
    host.search Pattern.untrusted_label folded
    || host.search Pattern.override folded
    || host.search Pattern.fake_authority folded
    || host.search Pattern.authority_steering folded
    || host.search Pattern.expected_answer folded
    || host.search Pattern.answer_steering folded
    || host.search Pattern.override_steering folded
    || host.search Pattern.imperative_output folded
    || host.search Pattern.assistant_obligation_steering folded
    || host.search Pattern.system_obligation_steering folded
    || (host.search Pattern.sensitive_disclosure folded
        && not (host.search Pattern.security_prohibition folded))

-- `is_untrusted_document_instruction`
unfoldable pub is_untrusted_document_instruction : TextHost → Text → Bool
unfolding is_blank fold steers
is_untrusted_document_instruction host text = not (is_blank text) && steers host (fold host text)

-- The indexes, from `n` on, of the texts for which a test holds
unfoldable pub indexes_where : (Text → Bool) → ℕ → List Text → List ℕ
indexes_where f n [] = []
indexes_where f n (s ∷ rest) =
    let others = indexes_where f (suc n) rest in if f s then n ∷ others else others

-- `[value for index, value in enumerate(values) if index not in blocked and value.strip()]`
unfoldable pub remaining : List ℕ → ℕ → List Text → List Text
unfolding has_number is_blank
remaining blocked n [] = []
remaining blocked n (s ∷ rest) =
    let others = remaining blocked (suc n) rest in
    if not (has_number n blocked) && not (is_blank s) then s ∷ others else others

abbrev pub some_left : List Text → Bool
some_left [] = false
some_left (s ∷ rest) = true

-- `untrusted_document_fragment_indexes`: a set of indexes
unfoldable pub untrusted_document_fragment_indexes : TextHost → List Text → List ℕ
unfolding is_untrusted_document_instruction indexes_where remaining joined is_blank
untrusted_document_fragment_indexes host values =
    let blocked = indexes_where (is_untrusted_document_instruction host) 0 values in
    let left = remaining blocked 0 values in
    if some_left left && is_untrusted_document_instruction host (joined 10 left)
    then blocked ++ indexes_where (λ s. not (is_blank s)) 0 values
    else blocked
