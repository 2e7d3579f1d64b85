-- ===== src/Retrieval/Search/Authorized.antt =====
-- Whose query finds which chunks.
use nexus_rag.Base.{
  ℕ, ◌≤◌, ◌≡◌, refl, arith, String, Bool, true, false, not, List, [], length, All, if◌then◌else◌,
  Result, ok, err, ltb,
}
use nexus_rag.Base.Int.{ℤ, pos, negsuc}
use nexus_rag.Access.Claims.{
  UserClaims, TokenError, invalid_token, conflicting_clearance, missing_sub, parse_claims,
  can_query, clearance,
}
use nexus_rag.Access.Levels.{ClassificationLevel, allowed_classifications}
use nexus_rag.Access.Payload.{Filter}
use nexus_rag.Access.Filter.{build_access_filter}
use nexus_rag.Vector.Exec.{StoreError}
use nexus_rag.Vector.Client.{Client}
use nexus_rag.Vector.Provenance.{any_collection_embedding_model}
use nexus_rag.Retrieval.Fusion.{Hit}
use nexus_rag.Retrieval.Delimit.{codes}
use nexus_rag.Retrieval.Reply.{
  Settings, Meeting, QueryEntry, query_denied, query_failed, Item, too_long, missing_role,
  model_mismatch, unavailable, no_match, below_floor, rejected_token, results, Reply, answered,
  raised, entry_of, audit, found_reply, clamp_top_k, max_top_k, hybrid_limit,
  embedding_model_mismatch, embedded_hits,
}
use nexus_rag.Retrieval.Search.{
  search_reply, summarized_reply, claims_reply, hybrid_query, access_filter_summary, run_rag_search,
}
use nexus_rag.Retrieval.Search.Found.{IsStored, QueryLaw, hybrid_query-All}
use nexus_rag.Retrieval.Search.Shown.{IsShown, Shows, audited-Shows, found-Shows}

-- What a reply shows, and to whom: to a caller whom the token identifies, who may query, and for the
-- levels under that caller's clearance.
pub record IsAuthorized (c : Client) (s : c.State) (z : Settings)
    (levels : List ClassificationLevel) (bearer_token : String) (top_k : ℤ) (items : List Item)
    : Type 0 where
  pub claims : UserClaims
  pub identified : parse_claims z.jwt z.oidc bearer_token ≡ ok claims
  pub permitted : can_query claims ≡ true
  pub bounded : length items ≤ clamp_top_k top_k
  pub shows : All (IsShown c s claims (allowed_classifications levels (clearance claims))) items

clamp_top_k-le : (k : ℤ) → clamp_top_k k ≤ max_top_k
unfolding clamp_top_k
clamp_top_k-le (pos n) = omega arith
clamp_top_k-le (negsuc n) = omega arith

module _ (c : Client) (query_points : String → Filter → ℕ → c.State → Result StoreError (List Hit))
    (law : QueryLaw c query_points) (z : Settings) (m : Meeting) (levels : List ClassificationLevel)
    (query : String) (top_k : ℕ) (s : c.State) (log : List QueryEntry) where
  search-Shows :
      (claims : UserClaims) (allowed : List String)
      → Shows c s claims allowed top_k
          (search_reply c query_points z m claims query top_k allowed s log)
  search-Shows claims allowed =
      checked (embedding_model_mismatch z.embedding_identity (any_collection_embedding_model c s))
    where
      hits_if : Result StoreError (Unit {0}) → Result StoreError (List Hit)
      hits_if embeds =
          embedded_hits embeds (hybrid_query c query_points claims allowed (hybrid_limit top_k) s)

      lost :
          {x : StoreError} {hs : List Hit} → Path (Result StoreError (List Hit)) (err x) (ok hs) → ⊥
      lost q = cc

      stored :
          (embeds : Result StoreError (Unit {0})) (hs : List Hit)
          → hits_if embeds ≡ ok hs
          → All (IsStored c s (build_access_filter claims allowed)) hs
      stored (ok tt) hs e =
          hybrid_query-All c query_points law claims allowed (hybrid_limit top_k) s hs e
      stored (err x) hs e = absurd (lost e)

      failed : QueryEntry
      failed = entry_of claims query_failed query []

      checked :
          (b : Bool)
          → Shows c s claims allowed top_k (
              if b
              then audit m.audit_commits failed model_mismatch log
              else found_reply z m claims query top_k (hits_if m.embeds) log)
      checked true =
          audited-Shows c s m claims allowed query top_k log m.audit_commits failed model_mismatch
            tt
      checked false =
          found-Shows c s m claims allowed query top_k log z (hits_if m.embeds) (stored m.embeds)

-- What a reply grants, if it has results.
abbrev pub Grants :
    (c : Client)
    → c.State
    → Settings
    → List ClassificationLevel
    → String
    → ℤ
    → Reply × List QueryEntry
    → Type 0
Grants c s z levels bearer_token top_k (answered (results items note), log) =
    IsAuthorized c s z levels bearer_token top_k items
Grants c s z levels bearer_token top_k _ = Unit {0}

module _ (c : Client) (query_points : String → Filter → ℕ → c.State → Result StoreError (List Hit))
    (law : QueryLaw c query_points) (z : Settings) (m : Meeting) (levels : List ClassificationLevel)
    (bearer_token query : String) (top_k : ℤ) (s : c.State) (log : List QueryEntry) where
  granted :
      (claims : UserClaims) (r : Reply × List QueryEntry)
      → parse_claims z.jwt z.oidc bearer_token ≡ ok claims
      → can_query claims ≡ true
      → Shows c s claims (allowed_classifications levels (clearance claims)) (clamp_top_k top_k) r
      → Grants c s z levels bearer_token top_k r
  granted claims (answered (results items note), l) e q h = record {
    claims = claims;
    identified = e;
    permitted = q;
    bounded = h.0;
    shows = h.1;
  }
  granted claims (answered too_long, l) e q h = tt
  granted claims (answered missing_role, l) e q h = tt
  granted claims (answered model_mismatch, l) e q h = tt
  granted claims (answered unavailable, l) e q h = tt
  granted claims (answered no_match, l) e q h = tt
  granted claims (answered below_floor, l) e q h = tt
  granted claims (answered (rejected_token x), l) e q h = tt
  granted claims (raised, l) e q h = tt

  denied-Grants :
      (commits : Bool) (entry : QueryEntry)
      → Grants c s z levels bearer_token top_k (audit commits entry missing_role log)
  denied-Grants true entry = tt
  denied-Grants false entry = tt

  claims-Grants :
      (r : Result TokenError UserClaims)
      → parse_claims z.jwt z.oidc bearer_token ≡ r
      → Grants c s z levels bearer_token top_k
          (claims_reply c query_points z m levels query (clamp_top_k top_k) s r log)
  claims-Grants (err (invalid_token n)) e = tt
  claims-Grants (err (conflicting_clearance ls)) e = tt
  claims-Grants (err missing_sub) e = tt
  claims-Grants (ok claims) e = permitted (can_query claims) refl
    where
      allowed : List String
      allowed = allowed_classifications levels (clearance claims)

      replied : Result StoreError (List String) → Reply × List QueryEntry
      replied r =
          summarized_reply c query_points z m claims query (clamp_top_k top_k) allowed s r log

      summarized :
          (r : Result StoreError (List String))
          → Shows c s claims allowed (clamp_top_k top_k) (replied r)
      summarized (err x) = tt
      summarized (ok names) =
          search-Shows c query_points law z m levels query (clamp_top_k top_k) s log claims allowed

      permitted :
          (b : Bool)
          → can_query claims ≡ b
          → Grants c s z levels bearer_token top_k (
              if not b
              then audit m.audit_commits (entry_of claims query_denied query []) missing_role log
              else replied (access_filter_summary c query_points allowed s))
      permitted false q = denied-Grants m.audit_commits (entry_of claims query_denied query [])
      permitted true q =
          let summary = access_filter_summary c query_points allowed s in
          granted claims (replied summary) e q (summarized summary)

  -- The results of a query go to a caller whom the token identifies and who may query. There are at
  -- most as many as the clamped `top_k`, which is 50 at most, and each is a stored chunk that the
  -- caller may see at the levels that the caller is cleared for, with its text between the tags.
  pub run_rag_search-IsAuthorized :
      Grants c s z levels bearer_token top_k
        (run_rag_search c query_points z m levels bearer_token query top_k s log)
      × (clamp_top_k top_k ≤ max_top_k)
  unfolding run_rag_search
  run_rag_search-IsAuthorized =
      (short (ltb z.max_query_chars (length (codes query))), clamp_top_k-le top_k)
    where
      short :
          (b : Bool)
          → Grants c s z levels bearer_token top_k (
              if b
              then (answered too_long, log)
              else claims_reply c query_points z m levels query
                  (clamp_top_k top_k)
                  s
                  (parse_claims z.jwt z.oidc bearer_token)
                  log)
      short true = tt
      short false = claims-Grants (parse_claims z.jwt z.oidc bearer_token) refl
