-- ===== src/Examples/Parsing.antt =====
-- The theorems on parsing (processing.py) at small files.
use evidencedesk.Prelude.{◌≡◌, refl, arith, Bytes, true, false, none, some, List, [], ◌∷◌, codes}
use evidencedesk.Db.{MediaType}
use evidencedesk.Python.Strings.{is_space, strip, lstrip, rstrip, is_blank}
use evidencedesk.Python.Utf8.{decode, decode_from}
use evidencedesk.Python.Lines.{split_lines, pieces_from, without_last_empty}
use evidencedesk.Processing.{value, ParsedPage, DocumentChunk}
use evidencedesk.Processing.Chunking.{
  lines, next_place, cut, stripped, sentences_of, sentences, words_from, words, slices, join,
  place_word, pack, split_sentence, split_all, split_text, pieces_of_blocks, pieces, append_all,
  chunk_pages,
}
use evidencedesk.Processing.Ink.{ink, inks}
use evidencedesk.Processing.Plain.{texts_of, plain_is_kept}
use evidencedesk.Processing.Pdf.{Limits, gives, Fate, PdfHost}
use evidencedesk.Processing.Parse.{
  hashes, heading, markdown_step, markdown_loop, parse_markdown, after_gap, split_gaps,
  logical_pages, parse_plain, some_text_in_blocks, some_text, parse_document,
}
use evidencedesk.Processing.Pages.{Parsed, parse_document-Parsed}

abbrev pub limits : Limits
limits = record { max_pages = 5; max_extracted_chars = 100 }

abbrev pub reader : PdfHost
reader = record {
  read = λ content. gives (record { is_encrypted = false; page_texts = gives content ∷ [] });
  limits_apply = true;
  fate = Fate.answers;
}

parse_document-Parsed_example :
    Parsed Fate.answers MediaType.application_pdf limits
      (parse_document reader limits (codes "%PDF") MediaType.application_pdf)
parse_document-Parsed_example =
    parse_document-Parsed reader limits (codes "%PDF") MediaType.application_pdf

markdown_pages :
    parse_markdown (codes "# T\na\nb\n## S\nc")
    ≡ record {
      page = 1;
      blocks =
          record { section = some (codes "T"); text = codes "T" }
          ∷ record { section = some (codes "T"); text = codes "a b" }
          ∷ [];
    }
      ∷ record { page = 2; blocks = record { section = some (codes "S"); text = codes "c" } ∷ [] }
      ∷ []
unfolding parse_markdown markdown_loop markdown_step heading hashes strip lstrip rstrip is_space
    join split_lines pieces_from without_last_empty
markdown_pages = refl

abbrev file : Bytes
file = codes "a b\n \nc"

abbrev pages : List ParsedPage
pages =
    record { page = 1; blocks = record { section = none; text = codes "a b" } ∷ [] }
    ∷ record { page = 2; blocks = record { section = none; text = codes "c" } ∷ [] }
    ∷ []

abbrev chunks : List DocumentChunk
chunks =
    record { page = 1; section = none; ordinal = 0; text = codes "a b" }
    ∷ record { page = 2; section = none; ordinal = 1; text = codes "c" }
    ∷ []

file_decoded : decode file ≡ some file
unfolding decode decode_from
file_decoded = refl

file_parsed : parse_document reader limits file MediaType.text_plain ≡ value pages
unfolding parse_document decode decode_from parse_plain split_gaps after_gap logical_pages some_text
    some_text_in_blocks is_blank strip lstrip rstrip is_space
file_parsed = refl

file_chunked : chunk_pages 9 4 pages ≡ value chunks
unfolding chunk_pages append_all pieces pieces_of_blocks split_text sentences lines sentences_of cut
    next_place stripped strip lstrip rstrip is_space split_all split_sentence pack place_word words
    words_from join slices
file_chunked = refl

plain_is_kept_example : inks (texts_of chunks) ≡ ink file
plain_is_kept_example =
    plain_is_kept reader limits file file 9 4 pages chunks file_decoded file_parsed (omega arith)
      file_chunked
