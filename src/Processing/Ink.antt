-- ===== src/Processing/Ink.antt =====
-- processing.py: chunking loses nothing but white space.
use evidencedesk.Prelude.{
  ℕ, zero, suc, ◌+◌, ◌≤◌, ◌<◌, ◌≡◌, refl, ap, sym, ◌∙◌, Text, List, [], ◌∷◌, ◌++◌, arith, ltb, leb,
  length, take, drop, take-drop, length-drop, Bool-cases, inl, inr, ◌&&◌, if◌then◌else◌,
}
use evidencedesk.Python.Strings.{is_space, lstrip, rstrip, strip}
use evidencedesk.Processing.Chunking.{
  lines, next_place, cut_at, cut, stripped, sentences_of, sentences, add_word, words_from, words,
  slices, join, Packing, flushed, separator, is_some_word, place_word, pack, split_sentence,
  split_all, split_text, Place,
}

-- The characters that are no white space
unfoldable pub ink : Text → Text
unfolding is_space
ink [] = []
ink (c ∷ s) = let rest = ink s in if is_space c then rest else c ∷ rest

-- The ink of some texts, one after the other
abbrev pub inks : List Text → Text
inks [] = []
inks (s ∷ rest) = ink s ++ inks rest

pub append_assoc : (a b c : Text) → (a ++ b) ++ c ≡ a ++ (b ++ c)
append_assoc [] b c = refl
append_assoc (x ∷ a) b c = ap (λ (r : Text). x ∷ r) (append_assoc a b c)

pub append-nil : (a : Text) → a ++ [] ≡ a
append-nil [] = refl
append-nil (x ∷ a) = ap (λ (r : Text). x ∷ r) (append-nil a)

pub ink-append : (a b : Text) → ink (a ++ b) ≡ ink a ++ ink b
unfolding ink
ink-append [] b = refl
ink-append (c ∷ a) b = elim (Bool-cases (is_space c)) [
  | inl e ↦ rw e (ink-append a b)
  | inr e ↦ rw e (ap (λ (r : Text). c ∷ r) (ink-append a b))
]

pub inks-append : (a b : List Text) → inks (a ++ b) ≡ inks a ++ inks b
inks-append [] b = refl
inks-append (s ∷ a) b =
    ap (λ r. ink s ++ r) (inks-append a b) ∙ sym (append_assoc (ink s) (inks a) (inks b))

ink-lstrip : (s : Text) → ink (lstrip s) ≡ ink s
unfolding ink lstrip
ink-lstrip [] = refl
ink-lstrip (c ∷ s) = elim (Bool-cases (is_space c)) [
  | inl e ↦ rw e (ink-lstrip s)
  | inr e ↦ rw e (rw (e, ink) refl)
]

ink-rstrip : (s : Text) → ink (rstrip s) ≡ ink s
unfolding ink rstrip
ink-rstrip [] = refl
ink-rstrip (c ∷ s) = ground (arith, ink-rstrip s)

pub ink-strip : (s : Text) → ink (strip s) ≡ ink s
unfolding strip
ink-strip s = ink-rstrip (lstrip s) ∙ ink-lstrip s

inks-stripped : (texts : List Text) → inks (stripped texts) ≡ inks texts
unfolding stripped ink
inks-stripped [] = refl
inks-stripped (s ∷ rest) = ground (arith, ink-strip s, inks-stripped rest)

-- The ink of a first piece and of the others
abbrev pub whole : Text × List Text → Text
whole (piece, rest) = ink piece ++ inks rest

whole-cut_at :
    (place : Place) (c : ℕ) (r : Text × List Text)
    → whole (cut_at place (next_place place c) c r) ≡ ink (c ∷ []) ++ whole r
unfolding next_place ink
whole-cut_at Place.plain c (piece, rest) = ground arith
whole-cut_at Place.ended c (piece, rest) = ground arith
whole-cut_at Place.matching c (piece, rest) = ground arith

whole-cut : (place : Place) (s : Text) → whole (cut place s) ≡ ink s
unfolding cut
whole-cut place [] = unfold ink in refl
whole-cut place (c ∷ s) =
    whole-cut_at place c (cut (next_place place c) s)
    ∙ ap (λ r. ink (c ∷ []) ++ r) (whole-cut (next_place place c) s)
    ∙ sym (ink-append (c ∷ []) s)

inks-sentences_of : (texts : List Text) → inks (sentences_of texts) ≡ inks texts
unfolding sentences_of
inks-sentences_of [] = refl
inks-sentences_of (line ∷ rest) =
    let (piece, others) = cut Place.plain line in
    inks-append (stripped (piece ∷ others)) (sentences_of rest)
    ∙ ap (λ r. r ++ inks (sentences_of rest))
        (inks-stripped (piece ∷ others) ∙ whole-cut Place.plain line)
    ∙ ap (λ r. ink line ++ r) (inks-sentences_of rest)

whole-lines : (s : Text) → whole (lines s) ≡ ink s
unfolding lines ink
whole-lines [] = refl
whole-lines (c ∷ s) = ground (arith, whole-lines s)

inks-sentences : (text : Text) → inks (sentences text) ≡ ink text
unfolding sentences
inks-sentences text =
    let (line, rest) = lines text in inks-sentences_of (line ∷ rest) ∙ whole-lines text

inks-add_word : (w : Text) (rest : List Text) → inks (add_word w rest) ≡ ink w ++ inks rest
unfolding ink
inks-add_word [] rest = refl
inks-add_word (c ∷ w) rest = refl

whole-words_from : (s : Text) → whole (words_from s) ≡ ink s
unfolding words_from ink
whole-words_from [] = refl
whole-words_from (c ∷ s) = elim (Bool-cases (is_space c)) [
  | inl e ↦ rw (e, inks-add_word (words_from s).0 (words_from s).1) (whole-words_from s)
  | inr e ↦ rw e (rw (e, ink) (ap (λ (r : Text). c ∷ r) (whole-words_from s)))
]

inks-words : (s : Text) → inks (words s) ≡ ink s
unfolding words
inks-words s = inks-add_word (words_from s).0 (words_from s).1 ∙ whole-words_from s

ink-join : (ws : List Text) → ink (join ws) ≡ inks ws
unfolding join ink
ink-join [] = refl
ink-join (w ∷ []) = sym (append-nil (ink w))
ink-join (w ∷ v ∷ rest) =
    ink-append w (32 ∷ join (v ∷ rest))
    ∙ ap (λ r. ink w ++ r) (unfold is_space in ink-join (v ∷ rest))

inks-flushed : (ws : List Text) → inks (flushed ws) ≡ inks ws
inks-flushed [] = refl
inks-flushed (w ∷ rest) = append-nil (ink (join (w ∷ rest))) ∙ ink-join (w ∷ rest)

module _ (max_chars : ℕ) (positive : 0 < max_chars) where
  drop_shorter : (n c : ℕ) (s : Text) → 0 < n → length (drop n (c ∷ s)) ≤ length s
  drop_shorter zero c s h = absurd (omega arith)
  drop_shorter (suc n) c s h = length-drop n s

  inks-slices :
      (fuel : ℕ) (word : Text) → length word ≤ fuel → inks (slices fuel max_chars word) ≡ ink word
  unfolding slices
  inks-slices zero [] h = unfold ink in refl
  inks-slices zero (c ∷ word) h = absurd (omega arith)
  inks-slices (suc fuel) [] h = unfold ink in refl
  inks-slices (suc fuel) (c ∷ word) h =
      ap (λ r. ink (take max_chars (c ∷ word)) ++ r)
        (inks-slices fuel (drop max_chars (c ∷ word))
          (omega (arith, drop_shorter max_chars c word positive)))
      ∙ sym (ink-append (take max_chars (c ∷ word)) (drop max_chars (c ∷ word)))
      ∙ ap ink (take-drop max_chars (c ∷ word))

  abbrev kept : List Text × Packing → Text
  kept (yielded, p) = inks yielded ++ inks p.current

  kept-place_word :
      (p : Packing) (word : Text) → kept (place_word max_chars p word) ≡ inks p.current ++ ink word
  unfolding place_word
  kept-place_word p word = elim (Bool-cases (ltb max_chars (length word))) [
    | inl e ↦ rw e (
        append-nil (inks (flushed p.current ++ slices (length word) max_chars word))
        ∙ inks-append (flushed p.current) (slices (length word) max_chars word)
        ∙ ap (λ r. inks (flushed p.current) ++ r) (inks-slices (length word) word (omega arith))
        ∙ ap (λ r. r ++ ink word) (inks-flushed p.current))
    | inr e ↦
        elim (Bool-cases (
          is_some_word p.current && ltb max_chars (p.size + (length word + separator p.current)))) [
            | inl f ↦
                rw (e, f)
                  (ap (λ r. r ++ inks (word ∷ []))
                      (append-nil (ink (join p.current)) ∙ ink-join p.current)
                    ∙ ap (λ r. inks p.current ++ r) (append-nil (ink word)))
            | inr f ↦
                rw (e, f)
                  (inks-append p.current (word ∷ [])
                    ∙ ap (λ r. inks p.current ++ r) (append-nil (ink word)))
          ]
  ]

  inks-pack :
      (p : Packing) (ws : List Text) → inks (pack max_chars p ws) ≡ inks p.current ++ inks ws
  unfolding pack
  inks-pack p [] = inks-flushed p.current ∙ sym (append-nil (inks p.current))
  inks-pack p (word ∷ rest) =
      let placed = place_word max_chars p word in
      inks-append placed.0 (pack max_chars placed.1 rest)
      ∙ ap (λ r. inks placed.0 ++ r) (inks-pack placed.1 rest)
      ∙ sym (append_assoc (inks placed.0) (inks placed.1.current) (inks rest))
      ∙ ap (λ r. r ++ inks rest) (kept-place_word p word)
      ∙ append_assoc (inks p.current) (ink word) (inks rest)

  inks-split_sentence : (s : Text) → inks (split_sentence max_chars s) ≡ ink s
  unfolding split_sentence
  inks-split_sentence s = elim (Bool-cases (leb (length s) max_chars)) [
    | inl e ↦ rw e (append-nil (ink s))
    | inr e ↦ rw e (inks-pack (record { current = []; size = 0 }) (words s) ∙ inks-words s)
  ]

  inks-split_all : (texts : List Text) → inks (split_all max_chars texts) ≡ inks texts
  unfolding split_all
  inks-split_all [] = refl
  inks-split_all (s ∷ rest) =
      inks-append (split_sentence max_chars s) (split_all max_chars rest)
      ∙ ap (λ r. r ++ inks (split_all max_chars rest)) (inks-split_sentence s)
      ∙ ap (λ r. ink s ++ r) (inks-split_all rest)

  -- Splitting a text loses nothing but white space and changes no order: the pieces have the
  -- characters of the text that are no white space, in their order, if pieces may have a length.
  pub inks-split_text : (text : Text) → inks (split_text max_chars text) ≡ ink text
  unfolding split_text
  inks-split_text text = inks-split_all (sentences text) ∙ inks-sentences text
