-- ===== src/Retrieval/Reply.antt =====
-- services/orchestration-mcp/app/rag_search.py: the answers of a query and their audit entries.
use nexus_rag.Base.{
  ℕ, ◌*◌, String, Bool, true, false, not, Option, none, some, List, [], ◌∷◌, ◌++◌, map, length, max,
  min, str_eq, if◌then◌else◌, Result, ok, err,
}
use nexus_rag.Base.Int.{ℤ, pos, negsuc}
use nexus_rag.Document.{Uuid}
use nexus_rag.Access.Claims.{UserClaims, Jwt, OidcSettings, TokenError}
use nexus_rag.Access.Payload.{Payload}
use nexus_rag.Vector.Exec.{StoreError, unexpected_response}
use nexus_rag.Vector.Provenance.{Provenance, unknown, built_by, mixed}
use nexus_rag.Retrieval.Fusion.{Hit}
use nexus_rag.Retrieval.Overlaps.{Candidate}
use nexus_rag.Retrieval.Rerank.{RerankSettings, Response, Note, rerank}
use nexus_rag.Retrieval.Delimit.{codes, delimit_untrusted_text}

-- MAX_TOP_K, HYBRID_CANDIDATE_MULTIPLIER, MIN_HYBRID_CANDIDATES
abbrev pub max_top_k : ℕ
max_top_k = 50

abbrev pub hybrid_candidate_multiplier : ℕ
hybrid_candidate_multiplier = 4

abbrev pub min_hybrid_candidates : ℕ
min_hybrid_candidates = 20

-- `max(1, min(top_k, MAX_TOP_K))`
unfoldable pub clamp_top_k : ℤ → ℕ
clamp_top_k (pos n) = max 1 (min n max_top_k)
clamp_top_k (negsuc n) = 1

unfoldable pub hybrid_limit : ℕ → ℕ
hybrid_limit top_k = max (top_k * hybrid_candidate_multiplier) min_hybrid_candidates

pub record Settings : Type 1 where
  pub jwt : Jwt
  pub oidc : OidcSettings
  pub embedding_identity : String
  pub max_query_chars : ℕ
  pub rerank : RerankSettings

-- What a query meets: whether it is embedded (`unexpected_response` is an httpx.HTTPError of the
-- embedding service, and the other errors are what else it raises), the answer of the reranker to the
-- candidates, and whether the commit of the audit entry lands.
pub record Meeting : Type 0 where
  pub embeds : Result StoreError (Unit {0})
  pub reranker : List Candidate → Response
  pub boosts : Option (List (String × ℕ))
  pub audit_commits : Bool

pub data QueryAction : Type 0 where
  query_denied query_failed query_made : QueryAction

-- The audit entry of a query, less its timings and its trace.
pub record QueryEntry : Type 0 where
  pub actor_sub : String
  pub actor_username : String
  pub action : QueryAction
  pub query_chars : ℕ
  pub result_document_ids : List Uuid

pub record Item : Type 0 where
  pub id : Uuid
  pub payload : Payload
  pub text : List ℕ

pub data Answer : Type 0 where
  too_long missing_role model_mismatch unavailable no_match below_floor : Answer
  rejected_token : TokenError → Answer
  results : List Item → Note → Answer

-- The hits, if the query was embedded.
abbrev pub embedded_hits :
    Result StoreError (Unit {0}) → Result StoreError (List Hit) → Result StoreError (List Hit)
embedded_hits (ok tt) hits = hits
embedded_hits (err e) hits = err e

-- an answer, or an exception
pub data Reply : Type 0 where
  answered : Answer → Reply
  raised : Reply

abbrev pub candidate_of : Hit → Candidate
candidate_of h = record {
  id = h.id;
  document_id = some h.payload.document_id;
  chunk_index = some h.payload.chunk_index;
  payload = h.payload;
}

abbrev pub item_of : Candidate → Item
item_of k = record {
  id = k.id;
  payload = k.payload;
  text = delimit_untrusted_text (codes k.payload.text);
}

abbrev pub entry_of : UserClaims → QueryAction → String → List Uuid → QueryEntry
entry_of claims action query ids = record {
  actor_sub = claims.sub;
  actor_username = claims.preferred_username;
  action = action;
  query_chars = length (codes query);
  result_document_ids = ids;
}

-- `_audit`, and what is returned after it
abbrev pub audit : Bool → QueryEntry → Answer → List QueryEntry → Reply × List QueryEntry
audit commits entry reply log =
    if commits then (answered reply, log ++ entry ∷ []) else (raised, log)

-- `_embedding_model_mismatch`: a check that cannot be made is passed
unfoldable pub embedding_model_mismatch : String → Result StoreError Provenance → Bool
embedding_model_mismatch identity (err e) = false
embedding_model_mismatch identity (ok unknown) = false
embedding_model_mismatch identity (ok (built_by model)) = not (str_eq model identity)
embedding_model_mismatch identity (ok (mixed models)) = true

-- from the reranking on
abbrev pub reranked_reply :
    Meeting
    → UserClaims
    → String
    → Option (List Candidate × Note)
    → List QueryEntry
    → Reply × List QueryEntry
reranked_reply m claims query none log = (raised, log)
reranked_reply m claims query (some ([], note)) log =
    audit m.audit_commits (entry_of claims query_made query []) below_floor log
reranked_reply m claims query (some (k ∷ kept, note)) log =
    audit m.audit_commits
      (entry_of claims query_made query (map (λ (x : Candidate). x.payload.document_id) (k ∷ kept)))
      (results (map item_of (k ∷ kept)) note) log

-- from the hits on
abbrev pub found_reply :
    Settings
    → Meeting
    → UserClaims
    → String
    → ℕ
    → Result StoreError (List Hit)
    → List QueryEntry
    → Reply × List QueryEntry
found_reply z m claims query top_k (err unexpected_response) log =
    audit m.audit_commits (entry_of claims query_made query []) unavailable log
found_reply z m claims query top_k (err e) log = (raised, log)
found_reply z m claims query top_k (ok []) log =
    audit m.audit_commits (entry_of claims query_made query []) no_match log
found_reply z m claims query top_k (ok (h ∷ hits)) log =
    let candidates = map candidate_of (h ∷ hits) in
    reranked_reply m claims query
      (rerank z.rerank m.boosts (m.reranker candidates) candidates top_k) log
