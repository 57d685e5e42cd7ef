-- ===== src/Processing/Chunking.antt =====
-- processing.py: `_sentences`, `_split_text` and `chunk_pages`.
use evidencedesk.Prelude.{
  ℕ, zero, suc, ◌+◌, Text, Bool, true, false, List, [], ◌∷◌, ◌++◌, ◌==◌, ◌||◌, ◌&&◌, ltb, leb,
  if◌then◌else◌, length, take, drop, map,
}
use evidencedesk.Db.{ErrorCode}
use evidencedesk.Python.Strings.{is_space, strip}
use evidencedesk.Processing.{Attempt, value, parse_error, Block, ParsedPage, DocumentChunk, ◌>>=◌}

abbrev pub is_empty : Text → Bool
is_empty [] = true
is_empty (c ∷ s) = false

-- The lines of `io.StringIO(text)`, each with its newline: the first and the others.
unfoldable pub lines : Text → Text × List Text
lines [] = ([], [])
lines (c ∷ s) =
    let (line, rest) = lines s in if c == 10 then (c ∷ [], line ∷ rest) else (c ∷ line, rest)

-- Where a search for `(?<=[.!?])\s+` is: after any other character, after one of `.!?`, or in a match.
pub data Place : Type 0 where
  plain ended matching : Place

abbrev pub is_end : ℕ → Bool
is_end c = c == b'.' || c == b'!' || c == b'?'

unfoldable pub next_place : Place → ℕ → Place
unfolding is_space
next_place Place.plain c = if is_end c then Place.ended else Place.plain
next_place _ c =
    if is_space c then Place.matching else if is_end c then Place.ended else Place.plain

-- One character before what was cut after it: the first piece and the others. A match starts after
-- one of `.!?`, which ends a piece.
abbrev pub cut_at : Place → Place → ℕ → Text × List Text → Text × List Text
cut_at Place.matching Place.matching c (piece, rest) = (piece, rest)
cut_at _ Place.matching c (piece, rest) = ([], piece ∷ rest)
cut_at _ _ c (piece, rest) = (c ∷ piece, rest)

-- A line between the matches
unfoldable pub cut : Place → Text → Text × List Text
unfolding next_place
cut place [] = ([], [])
cut place (c ∷ s) = let next = next_place place c in cut_at place next c (cut next s)

-- The pieces that are not empty when stripped
unfoldable pub stripped : List Text → List Text
unfolding strip
stripped [] = []
stripped (s ∷ rest) =
    let others = stripped rest in if is_empty (strip s) then others else strip s ∷ others

unfoldable pub sentences_of : List Text → List Text
unfolding cut stripped
sentences_of [] = []
sentences_of (line ∷ rest) =
    let (piece, others) = cut Place.plain line in stripped (piece ∷ others) ++ sentences_of rest

-- `_sentences`
unfoldable pub sentences : Text → List Text
unfolding lines sentences_of
sentences text = let (line, rest) = lines text in sentences_of (line ∷ rest)

abbrev pub add_word : Text → List Text → List Text
add_word [] rest = rest
add_word (c ∷ w) rest = (c ∷ w) ∷ rest

-- `\S+`: the word that the text starts with, and the others
unfoldable pub words_from : Text → Text × List Text
unfolding is_space
words_from [] = ([], [])
words_from (c ∷ s) =
    let (w, rest) = words_from s in if is_space c then ([], add_word w rest) else (c ∷ w, rest)

unfoldable pub words : Text → List Text
unfolding words_from
words s = let (w, rest) = words_from s in add_word w rest

-- `word[offset : offset + max_chars]` for each offset; the fuel is the length of the word.
unfoldable pub slices : ℕ → ℕ → Text → List Text
slices zero max_chars word = []
slices (suc fuel) max_chars [] = []
slices (suc fuel) max_chars (c ∷ word) =
    take max_chars (c ∷ word) ∷ slices fuel max_chars (drop max_chars (c ∷ word))

-- `" ".join(words)`
unfoldable pub join : List Text → Text
join [] = []
join (w ∷ []) = w
join (w ∷ v ∷ rest) = w ++ 32 ∷ join (v ∷ rest)

-- The locals `current` and `length` of `_split_text`
pub record Packing : Type 0 where
  pub current : List Text
  pub size : ℕ

-- `if current: yield " ".join(current)`
abbrev pub flushed : List Text → List Text
flushed [] = []
flushed (w ∷ rest) = join (w ∷ rest) ∷ []

abbrev pub separator : List Text → ℕ
separator [] = 0
separator (w ∷ rest) = 1

abbrev pub is_some_word : List Text → Bool
is_some_word [] = false
is_some_word (w ∷ rest) = true

-- The body of the loop over the words: what it yields, and the locals after it.
unfoldable pub place_word : ℕ → Packing → Text → List Text × Packing
unfolding join slices
place_word max_chars p word =
    if ltb max_chars (length word)
    then (
      flushed p.current ++ slices (length word) max_chars word,
      record { current = []; size = 0 },
    )
    else (let added = length word + separator p.current in
        if is_some_word p.current && ltb max_chars (p.size + added)
        then (join p.current ∷ [], record { current = word ∷ []; size = length word })
        else ([], record { current = p.current ++ word ∷ []; size = p.size + added }))

unfoldable pub pack : ℕ → Packing → List Text → List Text
unfolding place_word join
pack max_chars p [] = flushed p.current
pack max_chars p (word ∷ rest) =
    let (yielded, p') = place_word max_chars p word in yielded ++ pack max_chars p' rest

-- One sentence of `_split_text`
unfoldable pub split_sentence : ℕ → Text → List Text
unfolding pack words
split_sentence max_chars sentence =
    if leb (length sentence) max_chars
    then sentence ∷ []
    else pack max_chars (record { current = []; size = 0 }) (words sentence)

unfoldable pub split_all : ℕ → List Text → List Text
unfolding split_sentence
split_all max_chars [] = []
split_all max_chars (sentence ∷ rest) =
    split_sentence max_chars sentence ++ split_all max_chars rest

-- `_split_text`
unfoldable pub split_text : ℕ → Text → List Text
unfolding sentences split_all
split_text max_chars text = split_all max_chars (sentences text)

-- The pieces of one block, each an unnumbered chunk
abbrev pub located : ParsedPage → Block → Text → DocumentChunk
located page block piece = record {
  page = page.page;
  section = block.section;
  ordinal = 0;
  text = piece;
}

unfoldable pub pieces_of_blocks : ℕ → ParsedPage → List Block → List DocumentChunk
unfolding split_text
pieces_of_blocks max_chars page [] = []
pieces_of_blocks max_chars page (block ∷ rest) =
    map (located page block) (split_text max_chars block.text)
    ++ pieces_of_blocks max_chars page rest

unfoldable pub pieces : ℕ → List ParsedPage → List DocumentChunk
unfolding pieces_of_blocks
pieces max_chars [] = []
pieces max_chars (page ∷ rest) =
    pieces_of_blocks max_chars page page.blocks ++ pieces max_chars rest

-- The body of the innermost loop, `n` chunks having been appended
unfoldable pub append_all : ℕ → ℕ → List DocumentChunk → Attempt (List DocumentChunk)
append_all max_chunks n [] = value []
append_all max_chunks n (c ∷ rest) =
    (let others = append_all max_chunks (suc n) rest in
      if leb max_chunks n
      then parse_error ErrorCode.too_many_chunks
      else others >>= λ chunks. value (record c { ordinal = n } ∷ chunks))

-- `chunk_pages`
unfoldable pub chunk_pages : ℕ → ℕ → List ParsedPage → Attempt (List DocumentChunk)
unfolding pieces append_all
chunk_pages max_chars max_chunks pages = append_all max_chunks 0 (pieces max_chars pages)
