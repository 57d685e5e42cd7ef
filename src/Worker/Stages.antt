-- ===== src/Worker/Stages.antt =====
-- jobs.py, the stages of `process_document` between its transactions: the pages are redacted, cut
-- into chunks and embedded, and the supplier's fields are extracted. What other modules do for a
-- stage is the field of a `Pipeline`.
use evidencedesk.Prelude.{ℕ, suc, Text, Bytes, List, [], ◌∷◌, map}
use evidencedesk.Json.{Json}
use evidencedesk.Db.{Chunk, MediaType}
use evidencedesk.Evidence.{EvidenceChunk}
use evidencedesk.Processing.{Attempt, value, exception, Block, ParsedPage, DocumentChunk, ◌>>=◌}

-- `model_id` and `embed_many` are the embedding provider's; `extract` is `extract_supplier_fields`
-- or, in the mode "grounded-local-v3", `extract_supplier_fields_v3`.
pub record Pipeline : Type 0 where
  pub parse_document : Bytes → MediaType → Attempt (List ParsedPage)
  pub redact_pii : Text → Text
  pub chunk_pages : List ParsedPage → Attempt (List DocumentChunk)
  pub model_id : Text
  pub embed_many : List Text → Attempt (List (List ℕ))
  pub extract : List EvidenceChunk → Attempt Json

-- The chunk row and the passage that one parsed chunk becomes.
pub record Built : Type 0 where
  pub chunk : Chunk
  pub evidence : EvidenceChunk

module _ (p : Pipeline) (document_id : ℕ) (document_name : Text) (uuid : ℕ → ℕ) where
  redact_page : ParsedPage → ParsedPage
  redact_page page = record {
    page = page.page;
    blocks = map (λ (b : Block). record b { text = p.redact_pii b.text }) page.blocks;
  }

  unfoldable pub build : ℕ → DocumentChunk → List ℕ → Built
  build chunk_id parsed embedding = record {
    chunk = record {
      id = chunk_id;
      document_id = document_id;
      page = parsed.page;
      section = parsed.section;
      ordinal = parsed.ordinal;
      text = parsed.text;
      embedding = embedding;
      embedding_model_id = p.model_id;
    };
    evidence = record {
      id = chunk_id;
      document_id = document_id;
      document_name = document_name;
      page = parsed.page;
      section = parsed.section;
      text = parsed.text;
      embedding = embedding;
      embedding_model_id = p.model_id;
    };
  }

  -- The loop over `zip(parsed_chunks, embeddings, strict=True)`; `uuid n` is what the `n`-th call of
  -- `uuid4` returns.
  unfoldable pub build_all : ℕ → List DocumentChunk → List (List ℕ) → Attempt (List Built)
  unfolding build
  build_all n [] [] = value []
  build_all n (c ∷ cs) (e ∷ es) = do
    rest ← build_all (suc n) cs es
    value (build (uuid n) c e ∷ rest)
  build_all n _ _ = exception

  -- The body of the `try` from the redaction to the extraction.
  unfoldable pub derive : List ParsedPage → Attempt (List Chunk × Json)
  unfolding redact_page build_all
  derive pages = do
    parsed ← p.chunk_pages (map redact_page pages)
    embeddings ← p.embed_many (map (λ (c : DocumentChunk). c.text) parsed)
    built ← build_all 0 parsed embeddings
    payload ← p.extract (map (λ (b : Built). b.evidence) built)
    value (map (λ (b : Built). b.chunk) built, payload)
