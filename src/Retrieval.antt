-- ===== src/Retrieval.antt =====
-- services/orchestration-mcp/app: what is done with the chunks that a query found.
pub mod Overlaps
pub mod Delimit
pub mod Fusion
pub mod Rerank
pub mod Reply
pub mod Search
