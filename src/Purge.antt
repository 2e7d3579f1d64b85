-- ===== src/Purge.antt =====
-- services/common/common/purge.py: the destruction of a document in every store that holds it, and
-- the second person that it may need.
pub mod Stores
pub mod Destroy
pub mod Request
