-- ===== src/Api/Responses.antt =====
-- main.py: how a handler ends.
use evidencedesk.Prelude.{ℕ}
use evidencedesk.Uploads.{Rejection}

-- The `code` in the detail of an `HTTPException`.
pub data Detail : Type 0 where
  authentication_required invalid_token forbidden invalid_credentials dossier_not_found
        document_not_found synthetic_attestation_required public_demo_file_not_approved
        queue_unavailable :
      Detail
  upload_rejected : Rejection → Detail

-- A value with its status, an `HTTPException`, or an exception that no handler catches.
pub data Response (A : Type 0) : Type 0 where
  reply : ℕ → A → Response A
  refused : ℕ → Detail → Response A
  crashed : Response A
