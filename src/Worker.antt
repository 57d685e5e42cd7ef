-- ===== src/Worker.antt =====
-- apps/worker/evidencedesk_worker/jobs.py: `process_document` and the transactions that it is
-- made of. Each transaction locks the task and the document, so it is one function on the desk;
-- what other sessions commit between two of them is the schedule's. Logging is left out.
pub mod Transactions
pub mod Stages
pub mod Run
pub mod Locking
pub mod Derived
pub mod Soundness
pub mod Interleaving
pub mod Retries
pub mod Tries
pub mod Delivery
pub mod Frame
pub mod Local
pub mod Settled
pub mod Reports
