-- ===== src/Access/Filter/Visible.antt =====
-- What the filter lets through, and that curation and retrieval read a document's scope alike.
use nexus_rag.Base.{
  String, true, ◌≡◌, ◌↔◌, ◌⊎◌, List, ◌∷◌, arith, any-In, In-any, contains, contains-In, In-contains,
  In,
}
use nexus_rag.Document.{approved, approved-status_text, status_text-approved}
use nexus_rag.Access.Claims.{UserClaims, releasability}
use nexus_rag.Access.Metadata.{no_releasability_restriction, access_scope_authorized}
use nexus_rag.Access.Payload.{Payload, passes}
use nexus_rag.Access.Filter.{build_access_filter}

-- One of the document's releasability values is unrestricted or held.
pub record IsReleasable (held values : List String) : Type 0 where
  pub value : String
  pub listed : In value values
  pub releasable : (value ≡ no_releasability_restriction) ⊎ In value held

-- What an identity with these cleared levels may retrieve.
pub record IsVisible (claims : UserClaims) (allowed : List String) (p : Payload) : Type 0 where
  pub is_approved : p.status ≡ approved
  pub cleared : In p.classification allowed
  pub released : IsReleasable (releasability claims) p.releasability
  pub in_scope : access_scope_authorized p.access_scope claims.sub claims.groups claims.org ≡ true

passes-IsVisible :
    (claims : UserClaims) (allowed : List String) (p : Payload)
    → passes (build_access_filter claims allowed) p ≡ true
    → IsVisible claims allowed p
unfolding build_access_filter access_scope_authorized
passes-IsVisible claims allowed p h =
    let (v, listed, e) =
      any-In (λ v. contains v (no_releasability_restriction ∷ releasability claims)) p.releasability
        (ground arith) in
    record {
      is_approved = status_text-approved p.status (ground arith);
      cleared = contains-In p.classification allowed (ground arith);
      released = record {
        value = v;
        listed = listed;
        releasable = contains-In v (no_releasability_restriction ∷ releasability claims) e;
      };
      in_scope = ground arith;
    }

IsVisible-passes :
    (claims : UserClaims) (allowed : List String) (p : Payload)
    → IsVisible claims allowed p
    → passes (build_access_filter claims allowed) p ≡ true
unfolding build_access_filter access_scope_authorized
IsVisible-passes claims allowed p v = ground (
  arith,
  In-contains p.classification allowed v.cleared,
  approved-status_text p.status v.is_approved,
  v.in_scope,
  In-any (λ v. contains v (no_releasability_restriction ∷ releasability claims)) v.released.value
      p.releasability v.released.listed
      (In-contains v.released.value (no_releasability_restriction ∷ releasability claims)
        v.released.releasable),
)

-- The filter built from an identity's claims passes a chunk exactly when the chunk is approved,
-- its classification is among the cleared levels, one of its releasability values is unrestricted
-- or held, and the identity matches its access scope by the test that curation uses.
pub build_access_filter_iff :
    (claims : UserClaims) (allowed : List String) (p : Payload)
    → (passes (build_access_filter claims allowed) p ≡ true) ↔ IsVisible claims allowed p
build_access_filter_iff claims allowed p =
    (passes-IsVisible claims allowed p, IsVisible-passes claims allowed p)
