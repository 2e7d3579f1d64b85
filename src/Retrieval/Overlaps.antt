-- ===== src/Retrieval/Overlaps.antt =====
-- services/orchestration-mcp/app/reranking.py: `collapse_adjacent_overlaps`.
pub mod Kept
use nexus_rag.Base.{
  ℕ, suc, Bool, true, false, ◌&&◌, ◌||◌, Option, none, some, List, [], ◌∷◌, ◌++◌, length, any, ◌==◌,
  String, if◌then◌else◌,
}
use nexus_rag.Document.{Uuid}
use nexus_rag.Access.Payload.{Payload}

-- A candidate: its payload, and the two fields of it that may be absent, on their own.
pub record Candidate : Type 0 where
  pub id : Uuid
  pub document_id : Option Uuid
  pub chunk_index : Option ℕ
  pub payload : Payload

-- `doc is not None and isinstance(idx, int)`, and the test against a kept pair `(d, i)`
abbrev pub collides_of : Option Uuid → Option ℕ → Option Uuid → Option ℕ → Bool
collides_of (some doc) (some idx) (some d) (some i) = d == doc && (i == suc idx || idx == suc i)
collides_of _ _ _ _ = false

-- the candidate overlaps one that is kept
abbrev pub collides : Candidate → Candidate → Bool
collides candidate k =
    collides_of candidate.document_id candidate.chunk_index k.document_id k.chunk_index

-- one round of the loop, without its `break`
abbrev collapse_step : List Candidate → ℕ → Candidate → List Candidate × ℕ
collapse_step kept dropped candidate =
    if any (collides candidate) kept then (kept, suc dropped) else (kept ++ candidate ∷ [], dropped)

unfoldable pub collapse_from : ℕ → List Candidate → ℕ → List Candidate → List Candidate × ℕ
collapse_from top_k kept dropped [] = (kept, dropped)
collapse_from top_k kept dropped (candidate ∷ ranked) =
    let next = collapse_step kept dropped candidate in
    let rest = collapse_from top_k next.0 next.1 ranked in
    if length kept == top_k then (kept, dropped) else rest

unfoldable pub collapse_adjacent_overlaps : List Candidate → ℕ → List Candidate × ℕ
collapse_adjacent_overlaps ranked top_k = collapse_from top_k [] 0 ranked
