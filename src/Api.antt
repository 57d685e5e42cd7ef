-- ===== src/Api.antt =====
-- apps/api/evidencedesk_api/main.py: the handlers that read and write the shared tables. A handler
-- is a function on the desk; a request's correlation identifier, the clock and the fresh identifiers
-- are arguments. Response models and logging are left out.
pub mod Responses
pub mod Access
pub mod Upload
pub mod Delete
pub mod Views
pub mod Extraction
pub mod Status
