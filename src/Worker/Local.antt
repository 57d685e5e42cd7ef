-- ===== src/Worker/Local.antt =====
-- jobs.py with processing.py: a run whose pages and chunks are those of `parse_document` and
-- `chunk_pages`.
use evidencedesk.Prelude.{
  ℕ, suc, ◌≤◌, ◌≡◌, refl, ap, arith, Option, none, some, Bytes, Text, List, [], ◌∷◌, length,
  Bool-cases, inl, inr, map,
}
use evidencedesk.Db.{Desk}
use evidencedesk.Processing.{Attempt, value, parse_error, exception, ParsedPage, DocumentChunk}
use evidencedesk.Processing.Chunking.{pieces, chunk_pages}
use evidencedesk.Processing.Bounds.{Appended, chunk_pages-Appended}
use evidencedesk.Processing.Pdf.{Limits, PdfHost}
use evidencedesk.Processing.Parse.{parse_document}
use evidencedesk.Processing.Pages.{Parsed, parse_document-Parsed}
use evidencedesk.Worker.Transactions.{Begun, Work, is_completed, begin_processing}
use evidencedesk.Worker.Stages.{Pipeline, Built, build_all, derive}
use evidencedesk.Worker.Run.{Schedule, after_parse, after_read, after_begin, process_document}
use evidencedesk.Worker.Locking.{Locked-cases}
use evidencedesk.Worker.Derived.{Ensures, Ensures-bind, Ensures-trivial}
use evidencedesk.Worker.Settled.{
  IsSettled, IsSmall, unless_IsSettled, fail_storage-IsSettled, fail_parse-IsSettled,
  after_derive-IsSettled,
}

-- The pipeline with the repository's own parsing and chunking
unfoldable pub local : PdfHost → Limits → ℕ → Pipeline → Pipeline
unfolding parse_document chunk_pages
local host limits max_chunks p = record p {
  parse_document = parse_document host limits;
  chunk_pages = chunk_pages 900 max_chunks;
}

length-map : {A B : Type 0} (f : A → B) (xs : List A) → length (map f xs) ≡ length xs
length-map f [] = refl
length-map f (x ∷ xs) = ap (λ n. suc n) (length-map f xs)

module _ (p : Pipeline) (document_id : ℕ) (document_name : Text) (uuid : ℕ → ℕ) where
  length-build_all :
      (n : ℕ) (cs : List DocumentChunk) (es : List (List ℕ))
      → Ensures
          (λ (built : List Built). length built ≡ length cs)
          (build_all p document_id document_name uuid n cs es)
  unfolding build_all
  length-build_all n [] [] = refl
  length-build_all n [] (e ∷ es) = tt
  length-build_all n (c ∷ cs) [] = tt
  length-build_all n (c ∷ cs) (e ∷ es) =
      Ensures-bind (λ (built : List Built). length built ≡ length cs) _
        (build_all p document_id document_name uuid (suc n) cs es) _
        (length-build_all (suc n) cs es) (λ built same. ap (λ k. suc k) same)

  derive-IsSmall :
      (max_chunks : ℕ)
      → ((pages : List ParsedPage)
          → Ensures (λ (cs : List DocumentChunk). length cs ≤ max_chunks) (p.chunk_pages pages))
      → (pages : List ParsedPage)
      → Ensures (IsSmall max_chunks) (derive p document_id document_name uuid pages)
  unfolding derive
  derive-IsSmall max_chunks few_chunks pages =
      let small = IsSmall max_chunks in
      Ensures-bind (λ (cs : List DocumentChunk). length cs ≤ max_chunks) small (p.chunk_pages _) _
        (few_chunks _)
        λ parsed few.
          Ensures-bind (λ x. Unit {0}) small (p.embed_many _) _ (Ensures-trivial _)
            λ embeddings _.
              Ensures-bind (λ (built : List Built). length built ≡ length parsed) small
                (build_all p document_id document_name uuid 0 parsed embeddings) _
                (length-build_all 0 parsed embeddings)
                λ built same.
                  Ensures-bind (λ x. Unit {0}) small (p.extract _) _ (Ensures-trivial _)
                    λ payload _. few_models built (length parsed) same few
    where
      few_models :
          (built : List Built) (n : ℕ)
          → length built ≡ n
          → n ≤ max_chunks
          → length (map (λ (b : Built). b.chunk) built) ≤ max_chunks
      few_models built n same few =
          omega (arith, few, same, length-map (λ (b : Built). b.chunk) built)

module _ (host : PdfHost) (limits : Limits) (max_chunks : ℕ) (rest : Pipeline) (sc : Schedule)
    (document_id task_id : ℕ) where
  few_chunks :
      (pages : List ParsedPage)
      → Ensures
          (λ (cs : List DocumentChunk). length cs ≤ max_chunks)
          (chunk_pages 900 max_chunks pages)
  few_chunks pages =
      go (chunk_pages 900 max_chunks pages)
        (chunk_pages-Appended 900 max_chunks pages (omega arith))
    where
      go :
          (chunks : Attempt (List DocumentChunk))
          → Appended 900 max_chunks 0 (pieces 900 pages) chunks
          → Ensures (λ (cs : List DocumentChunk). length cs ≤ max_chunks) chunks
      go (value cs) h = omega (arith, h.1)
      go (parse_error code) h = tt
      go exception h = tt

  after_parse-IsSettled :
      (work : Work) (parsed : Attempt (List ParsedPage)) (desk : Desk)
      → Parsed host.fate work.media_type limits parsed
      → IsSettled host.fate sc max_chunks
          (after_parse
            (local host limits max_chunks rest)
            sc
            document_id
            task_id
            work
            parsed
            desk).0
  unfolding after_parse local
  after_parse-IsSettled work (value pages) desk h =
      after_derive-IsSettled host.fate max_chunks (local host limits max_chunks rest) sc document_id
        task_id work.attempt _ desk
        (derive-IsSmall (local host limits max_chunks rest) document_id work.document_name sc.uuid
          max_chunks few_chunks pages)
  after_parse-IsSettled work (parse_error code) desk h =
      fail_parse-IsSettled host.fate max_chunks (local host limits max_chunks rest) sc document_id
        task_id code desk
  after_parse-IsSettled work exception desk h = inr (inr h.1)

  after_read-IsSettled :
      (work : Work) (raw_data : Option Bytes) (desk : Desk)
      → IsSettled host.fate sc max_chunks
          (after_read
            (local host limits max_chunks rest)
            sc
            document_id
            task_id
            work
            raw_data
            desk).0
  unfolding after_read local
  after_read-IsSettled work none desk =
      fail_storage-IsSettled host.fate max_chunks (local host limits max_chunks rest) sc document_id
        task_id work.attempt desk
  after_read-IsSettled work (some raw_data) desk =
      after_parse-IsSettled work (parse_document host limits raw_data work.media_type) desk
        (parse_document-Parsed host limits raw_data work.media_type)

  BeginSettled : Begun × Desk → Type 0
  BeginSettled (Begun.finished r, desk) = IsSettled host.fate sc max_chunks r
  BeginSettled (Begun.working work, desk) = Unit

  begin_processing-Settled :
      (desk : Desk) → BeginSettled (begin_processing document_id task_id sc.started desk)
  unfolding begin_processing BeginSettled
  begin_processing-Settled desk = elim (Locked-cases task_id document_id desk) [
    | inl e ↦ rw (e, begin_processing) tt
    | inr (inl (t, d, e, h)) ↦ rw (e, begin_processing) tt
    | inr (inr (t, d, e, h)) ↦ elim (Bool-cases (is_completed d.status)) [
      | inl c ↦ rw (e, begin_processing, c) tt
      | inr c ↦ rw (e, begin_processing, c) tt
    ]
  ]

  after_begin-IsSettled :
      (begun : Begun × Desk)
      → BeginSettled begun
      → IsSettled host.fate sc max_chunks
          (after_begin (local host limits max_chunks rest) sc document_id task_id begun).0
  unfolding after_begin BeginSettled
  after_begin-IsSettled (Begun.finished r, desk) h = h
  after_begin-IsSettled (Begun.working work, desk) h = after_read-IsSettled work _ _

  -- Whatever a run meets that parses with `parse_document` and cuts into chunks of 900 characters with
  -- `chunk_pages`, if it completes, then with at most `max_chunks` chunks, and an exception leaves it
  -- only where the first transaction or the one that records a failure does not commit, or the pipe or
  -- the child process for a PDF file cannot be made or the message of the child is cut short.
  pub local_run-IsSettled :
      (desk : Desk)
      → IsSettled host.fate sc max_chunks
          (process_document (local host limits max_chunks rest) sc document_id task_id desk).0
  unfolding process_document
  local_run-IsSettled desk =
      unless_IsSettled host.fate max_chunks rest sc document_id task_id sc.begin_ok desk _
        (λ e. inl e)
        (after_begin-IsSettled (begin_processing document_id task_id sc.started desk)
          (begin_processing-Settled desk))
