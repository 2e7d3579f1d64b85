-- ===== src/Access/Filter.antt =====
-- services/common/common/qdrant_filters.py: the filter that every retrieval query carries.
pub mod Visible
use nexus_rag.Base.{String, List, [], ◌∷◌}
use nexus_rag.Access.Claims.{UserClaims, releasability}
use nexus_rag.Access.Metadata.{no_releasability_restriction, access_scope_values}
use nexus_rag.Access.Payload.{
  Filter, status_key, classification_key, releasability_key, access_scope_key, match_value,
  match_any,
}

-- `sorted(scope_values)` is left in the order of the set: `match_any` asks for membership.
unfoldable pub build_access_filter : UserClaims → List String → Filter
build_access_filter claims allowed = record {
  must =
      match_value status_key "approved"
      ∷ match_any classification_key allowed
      ∷ match_any releasability_key (no_releasability_restriction ∷ releasability claims)
      ∷ match_any access_scope_key (access_scope_values claims.sub claims.groups claims.org)
      ∷ [];
}
