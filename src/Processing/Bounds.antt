-- ===== src/Processing/Bounds.antt =====
-- processing.py: the size, the number and the ordinals of the chunks.
use evidencedesk.Prelude.{
  ℕ, zero, suc, ◌+◌, ◌≤◌, ◌<◌, ◌≡◌, refl, ap, Text, true, false, Option, List, [], ◌∷◌, ◌++◌, arith,
  ltb, leb, length, take, map, length-take, length-append, All, All-append, Bool-cases, inl, inr,
  ◌&&◌,
}
use evidencedesk.Db.{ErrorCode}
use evidencedesk.Python.Strings.{is_space, strip}
use evidencedesk.Processing.{
  Attempt, value, parse_error, exception, Block, ParsedPage, DocumentChunk, ◌>>=◌,
}
use evidencedesk.Processing.Chunking.{
  is_empty, lines, cut, stripped, sentences_of, sentences, add_word, words_from, words, slices,
  join, Packing, flushed, separator, is_some_word, place_word, pack, split_sentence, split_all,
  split_text, located, pieces_of_blocks, pieces, append_all, chunk_pages, Place,
}

-- A text that is not empty and not too long
abbrev pub Fits : ℕ → Text → Type 0
Fits max_chars s = (0 < length s) × (length s ≤ max_chars)

abbrev IsWord : Text → Type 0
IsWord s = 0 < length s

stripped-IsWord : (texts : List Text) → All IsWord (stripped texts)
unfolding stripped
stripped-IsWord [] = tt
stripped-IsWord (s ∷ rest) = elim (Bool-cases (is_empty (strip s))) [
  | inl e ↦ rw e (stripped-IsWord rest)
  | inr e ↦ rw e (ground arith, stripped-IsWord rest)
]

sentences_of-IsWord : (texts : List Text) → All IsWord (sentences_of texts)
unfolding sentences_of
sentences_of-IsWord [] = tt
sentences_of-IsWord (line ∷ rest) =
    let (piece, others) = cut Place.plain line in
    All-append IsWord (stripped (piece ∷ others)) (sentences_of rest)
      (stripped-IsWord (piece ∷ others)) (sentences_of-IsWord rest)

add_word-IsWord : (w : Text) (rest : List Text) → All IsWord rest → All IsWord (add_word w rest)
add_word-IsWord [] rest h = h
add_word-IsWord (c ∷ w) rest h = (omega arith, h)

words_from-IsWord : (s : Text) → All IsWord (words_from s).1
unfolding words_from
words_from-IsWord [] = tt
words_from-IsWord (c ∷ s) = elim (Bool-cases (is_space c)) [
  | inl e ↦ rw e (add_word-IsWord (words_from s).0 (words_from s).1 (words_from-IsWord s))
  | inr e ↦ rw e (words_from-IsWord s)
]

words-IsWord : (s : Text) → All IsWord (words s)
unfolding words
words-IsWord s = add_word-IsWord (words_from s).0 (words_from s).1 (words_from-IsWord s)

module _ (max_chars : ℕ) (positive : 0 < max_chars) where
  take-Fits : (c : ℕ) (s : Text) → Fits max_chars (take max_chars (c ∷ s))
  take-Fits c s = (taken max_chars positive, length-take max_chars (c ∷ s))
    where
      taken : (n : ℕ) → 0 < n → 0 < length (take n (c ∷ s))
      taken zero h = absurd (omega arith)
      taken (suc n) h = omega arith

  slices-Fits : (fuel : ℕ) (word : Text) → All (Fits max_chars) (slices fuel max_chars word)
  unfolding slices
  slices-Fits zero word = tt
  slices-Fits (suc fuel) [] = tt
  slices-Fits (suc fuel) (c ∷ word) = (take-Fits c word, slices-Fits fuel _)

length-join :
    (first : Text) (ws : List Text) (w : Text)
    → length (join ((first ∷ ws) ++ w ∷ [])) ≡ length (join (first ∷ ws)) + 1 + length w
unfolding join
length-join first [] w = ground (arith, length-append first (32 ∷ w))
length-join first (v ∷ rest) w = ground (
  arith,
  length-join v rest w,
  length-append first (32 ∷ join (v ∷ rest)),
  length-append first (32 ∷ join (v ∷ rest ++ w ∷ [])),
)

-- `length` is that of the joined words, which fit.
record IsPacking (max_chars : ℕ) (p : Packing) : Type 0 where
  sized : p.size ≡ length (join p.current)
  bounded : p.size ≤ max_chars
  some_ink : is_some_word p.current ≡ true → 0 < length (join p.current)

empty-IsPacking : (max_chars : ℕ) → IsPacking max_chars (record { current = []; size = 0 })
unfolding join
empty-IsPacking max_chars = record { sized = refl; bounded = omega arith; some_ink = λ e. cc }

flushed-Fits :
    (max_chars : ℕ) (p : Packing) → IsPacking max_chars p → All (Fits max_chars) (flushed p.current)
flushed-Fits max_chars p h = go p.current h.some_ink (omega (arith, h.sized, h.bounded))
  where
    go :
        (ws : List Text)
        → (is_some_word ws ≡ true → 0 < length (join ws))
        → length (join ws) ≤ max_chars
        → All (Fits max_chars) (flushed ws)
    go [] ink fits = tt
    go (w ∷ ws) ink fits = ((ink refl, fits), tt)

more-IsPacking :
    (max_chars : ℕ) (ws : List Text) (size : ℕ) (word : Text)
    → IsPacking max_chars (record { current = ws; size = size })
    → 0 < length word
    → length word ≤ max_chars
    → is_some_word ws && ltb max_chars (size + (length word + separator ws)) ≡ false
    → IsPacking max_chars
        (record { current = ws ++ word ∷ []; size = size + (length word + separator ws) })
unfolding join
more-IsPacking max_chars [] size word h ink fits room = record {
  sized = omega (arith, h.sized);
  bounded = omega (arith, h.sized);
  some_ink = λ e. ink;
}
more-IsPacking max_chars (w ∷ ws) size word h ink fits room = record {
  sized = omega (arith, h.sized, length-join w ws word);
  bounded = ground arith;
  some_ink = λ e. omega (arith, length-join w ws word);
}

module _ (max_chars : ℕ) (positive : 0 < max_chars) where
  place_word-Fits :
      (p : Packing) (word : Text)
      → IsPacking max_chars p
      → 0 < length word
      → let (yielded, p') = place_word max_chars p word in
        All (Fits max_chars) yielded × IsPacking max_chars p'
  unfolding place_word
  place_word-Fits p word h ink = elim (Bool-cases (ltb max_chars (length word))) [
    | inl e ↦ rw e (
      All-append (Fits max_chars) (flushed p.current) _ (flushed-Fits max_chars p h)
          (slices-Fits max_chars positive (length word) word),
      empty-IsPacking max_chars,
    )
    | inr e ↦
        let fits : length word ≤ max_chars = ground arith in
        elim (Bool-cases (
          is_some_word p.current && ltb max_chars (p.size + (length word + separator p.current)))) [
            | inl f ↦
                rw (e, f)
                  (
                    ((h.some_ink (ground arith), omega (arith, h.sized, h.bounded)), tt),
                    unfold join in record { sized = refl; bounded = fits; some_ink = λ g. ink },
                  )
            | inr f ↦ rw (e, f) (tt, more-IsPacking max_chars p.current p.size word h ink fits f)
          ]
  ]

  pack-Fits :
      (p : Packing) (ws : List Text)
      → IsPacking max_chars p
      → All IsWord ws
      → All (Fits max_chars) (pack max_chars p ws)
  unfolding pack
  pack-Fits p [] h all = flushed-Fits max_chars p h
  pack-Fits p (word ∷ rest) h all =
      let (yielded, h') = place_word-Fits p word h all.0 in
      All-append (Fits max_chars) _ _ yielded
        (pack-Fits (place_word max_chars p word).1 rest h' all.1)

  split_all-Fits :
      (texts : List Text) → All IsWord texts → All (Fits max_chars) (split_all max_chars texts)
  unfolding split_all split_sentence
  split_all-Fits [] all = tt
  split_all-Fits (s ∷ rest) all =
      All-append (Fits max_chars) _ (split_all max_chars rest)
        (elim (Bool-cases (leb (length s) max_chars)) [
          | inl e ↦ rw e ((all.0, ground arith), tt)
          | inr e ↦ rw e (pack-Fits _ (words s) (empty-IsPacking max_chars) (words-IsWord s))
        ])
        (split_all-Fits rest all.1)

  split_text-Fits : (text : Text) → All (Fits max_chars) (split_text max_chars text)
  unfolding split_text sentences
  split_text-Fits text =
      let (line, rest) = lines text in
      split_all-Fits (sentences_of (line ∷ rest)) (sentences_of-IsWord (line ∷ rest))

  abbrev ChunkFits : DocumentChunk → Type 0
  ChunkFits c = Fits max_chars c.text

  located-Fits :
      (page : ParsedPage) (block : Block) (texts : List Text)
      → All (Fits max_chars) texts
      → All ChunkFits (map (located page block) texts)
  located-Fits page block [] all = tt
  located-Fits page block (s ∷ rest) all = (all.0, located-Fits page block rest all.1)

  pieces_of_blocks-Fits :
      (page : ParsedPage) (blocks : List Block)
      → All ChunkFits (pieces_of_blocks max_chars page blocks)
  unfolding pieces_of_blocks
  pieces_of_blocks-Fits page [] = tt
  pieces_of_blocks-Fits page (block ∷ rest) =
      All-append ChunkFits _ (pieces_of_blocks max_chars page rest)
        (located-Fits page block _ (split_text-Fits block.text)) (pieces_of_blocks-Fits page rest)

  pieces-Fits : (pages : List ParsedPage) → All ChunkFits (pieces max_chars pages)
  unfolding pieces
  pieces-Fits [] = tt
  pieces-Fits (page ∷ rest) =
      All-append ChunkFits _ (pieces max_chars rest) (pieces_of_blocks-Fits page page.blocks)
        (pieces-Fits rest)

-- The ordinals count on from `n`.
abbrev pub Numbered : ℕ → List DocumentChunk → Type 0
Numbered n [] = Unit
Numbered n (c ∷ rest) = (c.ordinal ≡ n) × Numbered (suc n) rest

-- What a chunk holds apart from its ordinal
abbrev pub contents : List DocumentChunk → List (ℕ × Option Text × Text)
contents [] = []
contents (c ∷ rest) = (c.page, c.section, c.text) ∷ contents rest

-- How numbering `pieces` from `n` on ends, with `max_chunks` allowed.
abbrev pub Appended : ℕ → ℕ → ℕ → List DocumentChunk → Attempt (List DocumentChunk) → Type 0
Appended max_chars max_chunks n ps (value chunks) =
    (length chunks ≡ length ps)
    × (n + length chunks ≤ max_chunks)
    × Numbered n chunks
    × All (λ (c : DocumentChunk). Fits max_chars c.text) chunks
    × (contents chunks ≡ contents ps)
Appended max_chars max_chunks n ps (parse_error code) =
    (code ≡ ErrorCode.too_many_chunks) × (max_chunks < n + length ps)
Appended max_chars max_chunks n ps exception = ⊥

append_one :
    (max_chars max_chunks n : ℕ) (c : DocumentChunk) (ps : List DocumentChunk)
    (others : Attempt (List DocumentChunk))
    → Fits max_chars c.text
    → Appended max_chars max_chunks (suc n) ps others
    → Appended max_chars max_chunks n
        (c ∷ ps)
        (others >>= λ chunks. value (record c { ordinal = n } ∷ chunks))
append_one max_chars max_chunks n c ps (value chunks) fits (same, few, numbered, all, texts) = (
  omega (arith, same),
  omega (arith, few),
  (refl, numbered),
  (fits, all),
  ap (λ (r : List (ℕ × Option Text × Text)). (c.page, c.section, c.text) ∷ r) texts,
)
append_one max_chars max_chunks n c ps (parse_error code) fits h = (h.0, omega (arith, h.1))
append_one max_chars max_chunks n c ps exception fits h = h

append_all-Appended :
    (max_chars max_chunks n : ℕ) (ps : List DocumentChunk)
    → n ≤ max_chunks
    → All (λ (c : DocumentChunk). Fits max_chars c.text) ps
    → Appended max_chars max_chunks n ps (append_all max_chunks n ps)
unfolding append_all
append_all-Appended max_chars max_chunks n [] few all = (refl, omega arith, tt, tt, refl)
append_all-Appended max_chars max_chunks n (c ∷ ps) few all = elim (Bool-cases (leb max_chunks n)) [
  | inl e ↦ rw e (refl, ground arith)
  | inr e ↦ rw e (
      append_one max_chars max_chunks n c ps (append_all max_chunks (suc n) ps) all.0
        (append_all-Appended max_chars max_chunks (suc n) ps (ground arith) all.1))
]

-- If chunks may have a length, `chunk_pages` gives chunks that are not empty and no longer than
-- `max_chars`, numbered from 0 on, at most `max_chunks` of them, with the page, the section and the
-- text of all the pieces in their order; or it refuses with "too_many_chunks", and then there were
-- more pieces than that.
pub chunk_pages-Appended :
    (max_chars max_chunks : ℕ) (pages : List ParsedPage)
    → 0 < max_chars
    → Appended max_chars max_chunks 0
        (pieces max_chars pages)
        (chunk_pages max_chars max_chunks pages)
unfolding chunk_pages
chunk_pages-Appended max_chars max_chunks pages positive =
    append_all-Appended max_chars max_chunks 0 (pieces max_chars pages) (omega arith)
      (pieces-Fits max_chars positive pages)
