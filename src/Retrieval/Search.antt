-- ===== src/Retrieval/Search.antt =====
-- services/orchestration-mcp/app/rag_search.py: `run_rag_search`, over `hybrid_query` and
-- `access_filter_summary` of services/common/common/qdrant_backend.py.
pub mod Found
pub mod Shown
pub mod Authorized
pub mod Audited
use nexus_rag.Base.{
  ℕ, suc, ◌*◌, String, Bool, true, false, not, Option, none, some, List, [], ◌∷◌, ◌++◌, map, length,
  max, min, ltb, str_eq, if◌then◌else◌, Result, ok, err, ◌>>=◌,
}
use nexus_rag.Base.Int.{ℤ, pos, negsuc}
use nexus_rag.Document.{Uuid}
use nexus_rag.Access.Claims.{
  UserClaims, Jwt, OidcSettings, TokenError, missing_sub, parse_claims, can_query, clearance,
}
use nexus_rag.Access.Levels.{ClassificationLevel, allowed_classifications}
use nexus_rag.Access.Payload.{Payload, Filter}
use nexus_rag.Access.Filter.{build_access_filter}
use nexus_rag.Vector.Names.{classification_collection_name}
use nexus_rag.Vector.Exec.{StoreError, unexpected_response}
use nexus_rag.Vector.Client.{Client}
use nexus_rag.Vector.Provenance.{
  Provenance, unknown, built_by, mixed, any_collection_embedding_model,
}
use nexus_rag.Retrieval.Fusion.{Hit, fuse_ranked}
use nexus_rag.Retrieval.Overlaps.{Candidate}
use nexus_rag.Retrieval.Rerank.{RerankSettings, Response, Note, rerank}
use nexus_rag.Retrieval.Delimit.{codes, delimit_untrusted_text}
use nexus_rag.Retrieval.Reply.{
  Answer, Item, Meeting, QueryAction, QueryEntry, Reply, Settings, answered, audit, below_floor,
  candidate_of, clamp_top_k, embedding_model_mismatch, embedded_hits, entry_of, found_reply,
  hybrid_candidate_multiplier, hybrid_limit, item_of, max_top_k, min_hybrid_candidates,
  missing_role, model_mismatch, no_match, query_denied, query_failed, query_made, raised,
  rejected_token, reranked_reply, results, too_long, unavailable,
}

module _ (c : Client)
    (query_points : String → Filter → ℕ → c.State → Result StoreError (List Hit)) where
  open c use {State, collection_exists}

  -- `collections_queried`
  unfoldable pub access_filter_summary : List String → State → Result StoreError (List String)
  access_filter_summary [] s = ok []
  access_filter_summary (classification ∷ allowed) s = do
    exists ← collection_exists (classification_collection_name classification) s
    names ← access_filter_summary allowed s
    ok (if exists then classification_collection_name classification ∷ names else names)

  unfoldable pub query_collections :
      Filter → ℕ → List String → State → Result StoreError (List (List Hit))
  query_collections filter limit [] s = ok []
  query_collections filter limit (classification ∷ allowed) s =
      let rest = query_collections filter limit allowed s in
      do
        exists ← collection_exists (classification_collection_name classification) s
        if not exists then rest else do
          hits ← query_points (classification_collection_name classification) filter limit s
          lists ← rest
          ok (hits ∷ lists)

  unfoldable pub hybrid_query : UserClaims → List String → ℕ → State → Result StoreError (List Hit)
  unfolding query_collections
  hybrid_query claims allowed limit s = do
    lists ← query_collections (build_access_filter claims allowed) limit allowed s
    ok (fuse_ranked lists limit)

  abbrev pub search_reply :
      Settings
      → Meeting
      → UserClaims
      → String
      → ℕ
      → List String
      → State
      → List QueryEntry
      → Reply × List QueryEntry
  search_reply z m claims query top_k allowed s log =
      if embedding_model_mismatch z.embedding_identity (any_collection_embedding_model c s)
      then audit m.audit_commits (entry_of claims query_failed query []) model_mismatch log
      else found_reply z m claims query top_k
          (embedded_hits m.embeds (hybrid_query claims allowed (hybrid_limit top_k) s)) log

  -- the summary of the filter stands before the `try`
  abbrev pub summarized_reply :
      Settings
      → Meeting
      → UserClaims
      → String
      → ℕ
      → List String
      → State
      → Result StoreError (List String)
      → List QueryEntry
      → Reply × List QueryEntry
  summarized_reply z m claims query top_k allowed s (err e) log = (raised, log)
  summarized_reply z m claims query top_k allowed s (ok names) log =
      search_reply z m claims query top_k allowed s log

  -- A token without `sub` raises a KeyError.
  abbrev pub claims_reply :
      Settings
      → Meeting
      → List ClassificationLevel
      → String
      → ℕ
      → State
      → Result TokenError UserClaims
      → List QueryEntry
      → Reply × List QueryEntry
  claims_reply z m levels query top_k s (err missing_sub) log = (raised, log)
  claims_reply z m levels query top_k s (err e) log = (answered (rejected_token e), log)
  claims_reply z m levels query top_k s (ok claims) log =
      let allowed = allowed_classifications levels (clearance claims) in
      if not (can_query claims)
      then audit m.audit_commits (entry_of claims query_denied query []) missing_role log
      else summarized_reply z m claims query top_k allowed s (access_filter_summary allowed s) log

  unfoldable pub run_rag_search :
      Settings
      → Meeting
      → List ClassificationLevel
      → String
      → String
      → ℤ
      → State
      → List QueryEntry
      → Reply × List QueryEntry
  unfolding access_filter_summary hybrid_query
  run_rag_search z m levels bearer_token query top_k s log =
      if ltb z.max_query_chars (length (codes query))
      then (answered too_long, log)
      else claims_reply z m levels query (clamp_top_k top_k) s
          (parse_claims z.jwt z.oidc bearer_token) log
