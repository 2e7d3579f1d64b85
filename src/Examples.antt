-- ===== src/Examples.antt =====
-- The theorems at concrete inputs, and runs of the code.
mod Access
mod Vector
mod Office
mod Curation
mod Routes
mod Directory
mod Purge
mod Ingest
mod Jobs
mod Search
mod Recovery
