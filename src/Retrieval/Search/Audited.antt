-- ===== src/Retrieval/Search/Audited.antt =====
-- Which queries the audit log has.
use nexus_rag.Base.{
  ℕ, ◌≡◌, refl, subst, String, Bool, true, false, not, Option, none, some, List, [], ◌∷◌, ◌++◌, map,
  if◌then◌else◌, Result, ok, err, length, ltb,
}
use nexus_rag.Base.Int.{ℤ}
use nexus_rag.Document.{Uuid}
use nexus_rag.Access.Claims.{
  UserClaims, TokenError, invalid_token, conflicting_clearance, missing_sub, parse_claims,
  can_query, clearance,
}
use nexus_rag.Access.Levels.{ClassificationLevel, allowed_classifications}
use nexus_rag.Access.Payload.{Filter}
use nexus_rag.Vector.Exec.{StoreError, unexpected_response, value_error, runtime_error}
use nexus_rag.Vector.Client.{Client}
use nexus_rag.Vector.Provenance.{any_collection_embedding_model}
use nexus_rag.Retrieval.Fusion.{Hit}
use nexus_rag.Retrieval.Overlaps.{Candidate}
use nexus_rag.Retrieval.Rerank.{Note, rerank}
use nexus_rag.Retrieval.Delimit.{codes}
use nexus_rag.Retrieval.Reply.{
  Settings, Meeting, QueryEntry, query_denied, query_failed, query_made, Item, Answer, too_long,
  missing_role, model_mismatch, unavailable, no_match, below_floor, rejected_token, results, Reply,
  answered, raised, candidate_of, item_of, entry_of, audit, reranked_reply, found_reply,
  clamp_top_k, hybrid_limit, embedding_model_mismatch, embedded_hits,
}
use nexus_rag.Retrieval.Search.{
  search_reply, summarized_reply, claims_reply, hybrid_query, access_filter_summary, run_rag_search,
}

-- One entry more, for these documents and for a query of this length.
pub record HasEntry (query : String) (ids : List Uuid) (log after : List QueryEntry) : Type 0 where
  pub entry : QueryEntry
  pub appended : after ≡ log ++ entry ∷ []
  pub shown : entry.result_document_ids ≡ ids
  pub sized : entry.query_chars ≡ length (codes query)

-- What the log has after a reply.
abbrev pub IsAudited : String → List QueryEntry → Reply × List QueryEntry → Type 0
IsAudited query log (raised, after) = after ≡ log
IsAudited query log (answered too_long, after) = after ≡ log
IsAudited query log (answered (rejected_token e), after) = after ≡ log
IsAudited query log (answered (results items note), after) =
    HasEntry query (map (λ (i : Item). i.payload.document_id) items) log after
IsAudited query log (answered missing_role, after) = HasEntry query [] log after
IsAudited query log (answered model_mismatch, after) = HasEntry query [] log after
IsAudited query log (answered unavailable, after) = HasEntry query [] log after
IsAudited query log (answered no_match, after) = HasEntry query [] log after
IsAudited query log (answered below_floor, after) = HasEntry query [] log after

audit-IsAudited :
    (commits : Bool) (entry : QueryEntry) (reply : Answer) (query : String) (log : List QueryEntry)
    → IsAudited query log (answered reply, log ++ entry ∷ [])
    → IsAudited query log (audit commits entry reply log)
audit-IsAudited true entry reply query log h = h
audit-IsAudited false entry reply query log h = refl

added :
    (entry : QueryEntry) (query : String) (log : List QueryEntry)
    → entry.query_chars ≡ length (codes query)
    → HasEntry query entry.result_document_ids log (log ++ entry ∷ [])
added entry query log e = record { entry = entry; appended = refl; shown = refl; sized = e }

items-documents :
    (ks : List Candidate)
    → map (λ (x : Candidate). x.payload.document_id) ks
      ≡ map (λ (i : Item). i.payload.document_id) (map item_of ks)
items-documents [] = refl
items-documents (k ∷ ks) = rw (items-documents ks)

module _ (m : Meeting) (claims : UserClaims) (query : String) (log : List QueryEntry) where
  reranked-IsAudited :
      (r : Option (List Candidate × Note))
      → IsAudited query log (reranked_reply m claims query r log)
  reranked-IsAudited none = refl
  reranked-IsAudited (some ([], note)) =
      let e = entry_of claims query_made query [] in
      audit-IsAudited m.audit_commits e below_floor query log (added e query log refl)
  reranked-IsAudited (some (k ∷ kept, note)) =
      let ids = map (λ (x : Candidate). x.payload.document_id) (k ∷ kept) in
      let e = entry_of claims query_made query ids in
      audit-IsAudited m.audit_commits e (results (map item_of (k ∷ kept)) note) query log (
        subst (λ l. HasEntry query l log (log ++ e ∷ [])) (items-documents (k ∷ kept))
          (added e query log refl))

  found-IsAudited :
      (z : Settings) (top_k : ℕ) (hits : Result StoreError (List Hit))
      → IsAudited query log (found_reply z m claims query top_k hits log)
  found-IsAudited z top_k (err unexpected_response) =
      let e = entry_of claims query_made query [] in
      audit-IsAudited m.audit_commits e unavailable query log (added e query log refl)
  found-IsAudited z top_k (err value_error) = refl
  found-IsAudited z top_k (err runtime_error) = refl
  found-IsAudited z top_k (ok []) =
      let e = entry_of claims query_made query [] in
      audit-IsAudited m.audit_commits e no_match query log (added e query log refl)
  found-IsAudited z top_k (ok (h ∷ hits)) =
      let candidates = map candidate_of (h ∷ hits) in
      reranked-IsAudited (rerank z.rerank m.boosts (m.reranker candidates) candidates top_k)

module _ (c : Client) (query_points : String → Filter → ℕ → c.State → Result StoreError (List Hit))
    (z : Settings) (m : Meeting) (levels : List ClassificationLevel) (query : String) (top_k : ℕ)
    (s : c.State) (log : List QueryEntry) where
  search-IsAudited :
      (claims : UserClaims) (allowed : List String)
      → IsAudited query log (search_reply c query_points z m claims query top_k allowed s log)
  search-IsAudited claims allowed =
      checked (embedding_model_mismatch z.embedding_identity (any_collection_embedding_model c s))
    where
      hits : Result StoreError (List Hit)
      hits =
          embedded_hits m.embeds (hybrid_query c query_points claims allowed (hybrid_limit top_k) s)

      failed : QueryEntry
      failed = entry_of claims query_failed query []

      checked :
          (b : Bool)
          → IsAudited query log (
              if b
              then audit m.audit_commits failed model_mismatch log
              else found_reply z m claims query top_k hits log)
      checked true =
          audit-IsAudited m.audit_commits failed model_mismatch query log
            (added failed query log refl)
      checked false = found-IsAudited m claims query log z top_k hits

  claims-IsAudited :
      (r : Result TokenError UserClaims)
      → IsAudited query log (claims_reply c query_points z m levels query top_k s r log)
  claims-IsAudited (err (invalid_token n)) = refl
  claims-IsAudited (err (conflicting_clearance ls)) = refl
  claims-IsAudited (err missing_sub) = refl
  claims-IsAudited (ok claims) = permitted (can_query claims)
    where
      allowed : List String
      allowed = allowed_classifications levels (clearance claims)

      denied : QueryEntry
      denied = entry_of claims query_denied query []

      summarized :
          (r : Result StoreError (List String))
          → IsAudited query log
              (summarized_reply c query_points z m claims query top_k allowed s r log)
      summarized (err e) = refl
      summarized (ok names) = search-IsAudited claims allowed

      permitted :
          (b : Bool)
          → IsAudited query log (
              if not b
              then audit m.audit_commits denied missing_role log
              else summarized_reply c query_points z m claims query top_k allowed s
                  (access_filter_summary c query_points allowed s)
                  log)
      permitted false =
          audit-IsAudited m.audit_commits denied missing_role query log
            (added denied query log refl)
      permitted true = summarized (access_filter_summary c query_points allowed s)

-- A query that is answered to an identified caller adds one entry to the audit log, with the
-- documents that it returned and the length of the query. One that is too long or whose token is
-- refused adds none, and neither does one that raises.
pub run_rag_search-IsAudited :
    (c : Client) (query_points : String → Filter → ℕ → c.State → Result StoreError (List Hit))
    (z : Settings) (m : Meeting) (levels : List ClassificationLevel) (bearer_token query : String)
    (top_k : ℤ) (s : c.State) (log : List QueryEntry)
    → IsAudited query log (run_rag_search c query_points z m levels bearer_token query top_k s log)
unfolding run_rag_search
run_rag_search-IsAudited c query_points z m levels bearer_token query top_k s log =
    short (ltb z.max_query_chars (length (codes query)))
  where
    short :
        (b : Bool)
        → IsAudited query log (
            if b
            then (answered too_long, log)
            else claims_reply c query_points z m levels query
                (clamp_top_k top_k)
                s
                (parse_claims z.jwt z.oidc bearer_token)
                log)
    short true = refl
    short false =
        claims-IsAudited c query_points z m levels query (clamp_top_k top_k) s log
          (parse_claims z.jwt z.oidc bearer_token)
