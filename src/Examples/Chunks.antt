-- ===== src/Examples/Chunks.antt =====
-- The theorems on the chunks of a document (processing.py) at a text with a long sentence.
use evidencedesk.Prelude.{◌≡◌, refl, arith, Text, none, List, [], ◌∷◌, codes}
use evidencedesk.Python.Strings.{is_space, strip, lstrip, rstrip}
use evidencedesk.Processing.{ParsedPage}
use evidencedesk.Processing.Chunking.{
  lines, next_place, cut, stripped, sentences_of, sentences, words_from, words, slices, join,
  place_word, pack, split_sentence, split_all, split_text, pieces, chunk_pages,
}
use evidencedesk.Processing.Bounds.{Appended, chunk_pages-Appended}
use evidencedesk.Processing.Ink.{ink, inks, inks-split_text}

abbrev notes : Text
notes = codes "One two. Three four! abcdefghijkl x\nlast"

notes_split :
    split_text 9 notes
    ≡ codes "One two."
      ∷ codes "Three"
      ∷ codes "four!"
      ∷ codes "abcdefghi"
      ∷ codes "jkl"
      ∷ codes "x"
      ∷ codes "last"
      ∷ []
unfolding split_text sentences lines sentences_of cut next_place stripped strip lstrip rstrip
    is_space split_all split_sentence pack place_word words words_from join slices
notes_split = refl

inks-split_text_example : inks (split_text 9 notes) ≡ ink notes
inks-split_text_example = inks-split_text 9 (omega arith) notes

abbrev pages : List ParsedPage
pages = record { page = 1; blocks = record { section = none; text = notes } ∷ [] } ∷ []

chunk_pages-Appended_example : Appended 9 4 0 (pieces 9 pages) (chunk_pages 9 4 pages)
chunk_pages-Appended_example = chunk_pages-Appended 9 4 pages (omega arith)
