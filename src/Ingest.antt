-- ===== src/Ingest.antt =====
-- services/ingestion-worker/app and the recovery of services/ingestion-api/app: how a job is claimed, and how the text of a document becomes chunks.
pub mod Words
pub mod Windows
pub mod Chunking
pub mod Claim
pub mod Prepare
pub mod Writes
pub mod Job
pub mod Messages
pub mod Recovery
