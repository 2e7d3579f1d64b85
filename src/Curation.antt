-- ===== src/Curation.antt =====
-- services/ingestion-api/app/routes/curate.py: what a curator sees and decides.
pub mod Http
pub mod Authority
pub mod World
pub mod Changes
pub mod Decide
pub mod Edit
pub mod Routes
