-- ===== src/Lib.antt =====
-- EvidenceDesk: a desk of documents that an API takes in, a worker processes and clients ask about.
--
-- The program. The API (apps/api/evidencedesk_api/main.py) accepts uploads, writes a document and a
-- task to the tables (models.py), stores the file and queues a job; the worker
-- (apps/worker/evidencedesk_worker/jobs.py) takes the job, reads the file, derives chunks and fields
-- from it and records the outcome. Both write the same rows, and a deletion may come between any two
-- transactions of a run. Uploads are validated, requests are limited per client, and users carry
-- signed tokens.
--
-- The files.
-- - Prelude: library names, Boolean tests on numbers, lists. Python: the parts of `str`, `bytes` and
--   `PurePosixPath` that the code calls. Json: the values of JSON columns.
-- - Db: the rows of models.py and `Desk`, all that outlives a request. Db/Table and Db/Rows: select,
--   save and delete, with their laws. Db/Sound and Db/Growth: the invariant of the shared rows, when
--   rows are rewritten and when they are added.
-- - Auth (auth.py), Security (security.py), Storage (storage.py), Uploads (uploads.py): Acceptable
--   tells which uploads are accepted, Accepted what an accepted one is known to be.
-- - Processing (processing.py): Parse is `parse_document` on Markdown and plain text, Pdf on PDF
--   files, with the child process; Pages is about what it gives. Chunking is the way from pages to
--   chunks, Bounds and Ink what holds of it, Plain what holds from the file to the chunks. Evidence:
--   the record of retrieval.py that the worker copies.
-- - Trust (trust_boundaries.py): the test for instructions in a document, Fragments, Sanitize and
--   Sanitized for the payloads that are shown, Prompt for what a model is given.
-- - Answering (answering.py): the data of an answer, Validate is `validate_grounded_answer`,
--   Passages, Trusted and Grounding what it ensures. Qwen (qwen_answering.py): Decision is
--   `_parse_decision`, Support `validate_qwen_decision`, Provider `QwenAnswerProvider.answer`;
--   Parsed and Grounded hold the theorems.
-- - Worker (jobs.py): Transactions has one function for each transaction, Stages what is derived
--   between them, Run `process_document`. Locking: the cases of `_locked_task_and_document`.
--   Soundness, Interleaving, Frame, Reports, Retries, Tries and Delivery hold the theorems; Settled
--   and Local are about the run with the parsing and the chunking of Processing in the Pipeline.
-- - Api (main.py): Access is `login`, `current_user` and `require_action`, Access/Sessions how long a
--   token opens an account; Upload is
--   `upload_document`; Delete is `delete_document`; Views are `list_documents`, `get_document` and
--   `get_document_content`; Extraction `get_dossier_extraction`, Status `admin_status`.
-- - Seed (seed.py): `seed_demo_data`; Settle and Twice are about one seeding after another.
-- - System: the API and the worker together, as a step relation on desks.
-- - RateLimit (request_limits.py): `_admit` and `_bucket` of `RateLimitMiddleware`. BodyLimit
--   (request_limits.py): `RequestBodyLimitMiddleware` around an application, which is a tree of what
--   it does with `receive` and `send`.
-- - Holdout (evals/holdout.py, evals/holdout_v4.py): `run_holdout_once` and `claim_one_shot` as
--   steps on the lock and the output, which runs take in any order; OneShot holds the theorems.
-- - Examples: a small desk and small inputs, on which the theorems are applied.
--
-- How code becomes definitions. A handler or a transaction is a function from the desk to a result
-- and the desk it leaves: a transaction locks the rows that it writes, so it is one step. What
-- other sessions commit between two transactions is a function of the schedule, about which a
-- theorem says what it needs. A failure of the disk or of the queue is a Boolean of the schedule,
-- and so is, in the worker, one of a commit. A UUID, a digest and a timestamp is a number; text is
-- a list of code points. Exceptions that the code catches are values. Loops are over lists; the
-- fuels are the length of the word that `slices` cuts and of the text that `split_gaps` cuts, of
-- which every step takes a character or more. A float is the number of its 64 bits.
--
-- Parameters. `Pipeline` stands for parsing, redaction, chunking, embedding and extraction,
-- `Codec` for PyJWT, which reads the clock, and pwdlib, which draws a salt, `sha256` for hashlib,
-- `to_int` for `int` on bytes; `PdfHost` for pypdf, the limits of the operating system and the
-- fate of the child process; `TextHost` for `re.search` on the patterns of trust_boundaries.py and
-- for unicodedata; `QwenHost` for `json`, the text of a UUID and the model. The theorems on the
-- worker hold for every Pipeline. What is assumed of them is a hypothesis of the theorem.
--
-- Messages of exceptions are not kept: where a function raises one kind of exception, its tests are
-- Booleans.
--
-- Not modelled: a commit of the API that fails for another reason than the index on active
-- documents, a file that is written in part, redaction, retrieval, extraction and the other answer
-- providers (heuristics over text and models), the text of the patterns, the web application,
-- evaluation and scripts, migrations, response schemas, logging.
pub mod Prelude
pub mod Json
pub mod Trust
pub mod Auth
pub mod Python
pub mod Db
pub mod Storage
pub mod Uploads
pub mod Processing
pub mod Evidence
pub mod Answering
pub mod Qwen
pub mod Worker
pub mod Security
pub mod Seed
pub mod Holdout
pub mod Api
pub mod System
pub mod RateLimit
pub mod BodyLimit
pub mod Examples
