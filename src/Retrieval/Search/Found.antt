-- ===== src/Retrieval/Search/Found.antt =====
-- What a hybrid query finds.
use nexus_rag.Base.{
  ℕ, String, ◌≡◌, Bool, true, false, not, List, [], ◌∷◌, All, In-All, In, if◌then◌else◌, Result, ok,
  ◌>>=◌, >>=-ok,
}
use nexus_rag.Access.Claims.{UserClaims}
use nexus_rag.Access.Payload.{Filter, passes}
use nexus_rag.Access.Filter.{build_access_filter}
use nexus_rag.Vector.Names.{classification_collection_name}
use nexus_rag.Vector.Exec.{StoreError}
use nexus_rag.Vector.Client.{Client, Point}
use nexus_rag.Retrieval.Fusion.{Hit, fuse_ranked}
use nexus_rag.Retrieval.Fusion.Fused.{fuse_ranked-All}
use nexus_rag.Retrieval.Search.{query_collections, hybrid_query}

-- The point of a collection that an id and a payload were read from, which passes the filter.
pub record IsStored (c : Client) (s : c.State) (f : Filter) (h : Hit) : Type 0 where
  pub collection : String
  pub point : Point
  pub stored : In point (c.points s collection)
  pub same_id : point.id ≡ h.id
  pub same_payload : point.payload ≡ h.payload
  pub passed : passes f point.payload ≡ true

-- The query API as it is documented: a hit is a point of the collection that passes the filter.
abbrev pub QueryLaw :
    (c : Client) → (String → Filter → ℕ → c.State → Result StoreError (List Hit)) → Type 0
QueryLaw c query =
    (n : String) (f : Filter) (k : ℕ) (s : c.State) (hits : List Hit)
    → query n f k s ≡ ok hits
    → (h : Hit) → In h hits
    → IsStored c s f h

module _ (c : Client) (query : String → Filter → ℕ → c.State → Result StoreError (List Hit))
    (law : QueryLaw c query) where
  query_collections-All :
      (f : Filter) (limit : ℕ) (allowed : List String) (s : c.State) (lists : List (List Hit))
      → query_collections c query f limit allowed s ≡ ok lists
      → All (All (IsStored c s f)) lists
  unfolding query_collections
  query_collections-All f limit [] s [] e = tt
  query_collections-All f limit [] s (l ∷ ls) e = cc
  query_collections-All f limit (name ∷ allowed) s lists e =
      let (exists, _, q) =
        >>=-ok (c.collection_exists (classification_collection_name name) s) next lists e in
      reached exists (λ ls r. query_collections-All f limit allowed s ls r) q
    where
      Fine : List (List Hit) → Type 0
      Fine = All (All (IsStored c s f))

      rest : Result StoreError (List (List Hit))
      rest = query_collections c query f limit allowed s

      put : List Hit → List (List Hit) → Result StoreError (List (List Hit))
      put hits ls = ok (hits ∷ ls)

      next : Bool → Result StoreError (List (List Hit))
      next exists =
          if not exists
          then rest
          else query (classification_collection_name name) f limit s >>= λ hits. rest >>= put hits

      placed : (hits : List Hit) (ls : List (List Hit)) → put hits ls ≡ ok lists → lists ≡ hits ∷ ls
      placed hits ls k = cc

      reached :
          (exists : Bool)
          → ((ls : List (List Hit)) → rest ≡ ok ls → Fine ls)
          → next exists ≡ ok lists
          → Fine lists
      reached false ih k = ih lists k
      reached true ih k =
          let (hits, found, k1) =
            >>=-ok (query (classification_collection_name name) f limit s) (λ hs. rest >>= put hs)
              lists k in
          let (ls, tail, k2) = >>=-ok rest (put hits) lists k1 in
          rw (placed hits ls k2) (
            In-All (IsStored c s f) hits
                (λ h i. law (classification_collection_name name) f limit s hits found h i),
            ih ls tail,
          )

  -- Every hit is a point of a collection, and passes the caller's filter.
  pub hybrid_query-All :
      (claims : UserClaims) (allowed : List String) (limit : ℕ) (s : c.State) (hits : List Hit)
      → hybrid_query c query claims allowed limit s ≡ ok hits
      → All (IsStored c s (build_access_filter claims allowed)) hits
  unfolding hybrid_query
  hybrid_query-All claims allowed limit s hits e =
      let (lists, found, q) =
        >>=-ok (query_collections c query (build_access_filter claims allowed) limit allowed s)
          fused hits e in
      rw (same lists q) (
        fuse_ranked-All (IsStored c s (build_access_filter claims allowed)) lists limit
          (query_collections-All (build_access_filter claims allowed) limit allowed s lists found))
    where
      fused : List (List Hit) → Result StoreError (List Hit)
      fused lists = ok (fuse_ranked lists limit)

      same : (lists : List (List Hit)) → fused lists ≡ ok hits → hits ≡ fuse_ranked lists limit
      same lists q = cc
