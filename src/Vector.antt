-- ===== src/Vector.antt =====
-- The vector store behind retrieval (services/common/common/qdrant_store.py, qdrant_backend.py and
-- vector_store.py).
pub mod Names
pub mod Exec
pub mod Client
pub mod Store
pub mod Upsert
pub mod Provenance
pub mod Memory
