-- ===== src/Access/Claims/Clearance.antt =====
-- The clearance of an accepted token is the one level that its roles name.
use nexus_rag.Base.{
  ◌≤◌, String, ◌≡◌, ◌≢◌, some, List, [], ◌∷◌, arith, length, In, to_set, to_set_single, ltb,
  Bool-cases, inl, inr, Result, ok, err, ◌>>=◌,
}
use nexus_rag.Access.Claims.{
  UserClaims, TokenPayload, Jwt, OidcSettings, rag_clearance_prefix, role_values, first_clearance,
  clearance, claims_of_payload, parse_claims, conflicting_clearance, decode_verified_token,
}

-- The first clearance role's level is one of the levels that the roles name.
first_clearance-In :
    (roles : List String) (v : String)
    → In v (role_values rag_clearance_prefix roles)
    → In (first_clearance roles) (role_values rag_clearance_prefix roles)
unfolding first_clearance role_values
first_clearance-In [] v h = absurd h
first_clearance-In (role ∷ roles) v h = ground (arith, first_clearance-In roles v)

-- An accepted token's roles name at most one level.
accepted_single :
    (p : TokenPayload) (c : UserClaims)
    → claims_of_payload p ≡ ok c
    → length (to_set (role_values rag_clearance_prefix c.rag_roles)) ≤ 1
unfolding claims_of_payload
accepted_single p c e = ground arith

claims_of_payload-clearance :
    (p : TokenPayload) (c : UserClaims) (v : String)
    → claims_of_payload p ≡ ok c
    → In v (role_values rag_clearance_prefix c.rag_roles)
    → v ≡ clearance c
unfolding clearance
claims_of_payload-clearance p c v e h =
    to_set_single (role_values rag_clearance_prefix c.rag_roles) (accepted_single p c e) v
      (first_clearance c.rag_roles) h (first_clearance-In c.rag_roles v h)

-- Every clearance role of a token that `parse_claims` accepts names the level that `clearance`
-- reads, so the order of the roles does not matter.
pub parse_claims-clearance :
    (jwt : Jwt) (oidc : OidcSettings) (token : String) (c : UserClaims) (v : String)
    → parse_claims jwt oidc token ≡ ok c
    → In v (role_values rag_clearance_prefix c.rag_roles)
    → v ≡ clearance c
unfolding parse_claims
parse_claims-clearance jwt oidc token c v e h = go (decode_verified_token jwt oidc token) e
  where
    go : (r : Result _ TokenPayload) → (r >>= claims_of_payload) ≡ ok c → v ≡ clearance c
    go (ok p) q = claims_of_payload-clearance p c v q h
    go (err x) q = cc

claims_of_payload-conflict :
    (p : TokenPayload) (roles : List String) (v w : String)
    → p.rag_roles ≡ some roles
    → In v (role_values rag_clearance_prefix roles)
    → In w (role_values rag_clearance_prefix roles)
    → v ≢ w
    → claims_of_payload p
      ≡ err (conflicting_clearance (to_set (role_values rag_clearance_prefix roles)))
unfolding claims_of_payload
claims_of_payload-conflict p roles v w e h k ne =
    elim (Bool-cases (ltb 1 (length (to_set (role_values rag_clearance_prefix roles))))) [
      | inl more ↦ rw (e, more)
      | inr single ↦ absurd (ne (to_set_single _ (ground arith) v w h k))
    ]

-- A token whose roles name two different levels is refused, with the levels that it names.
parse_claims-conflict :
    (jwt : Jwt) (oidc : OidcSettings) (token : String) (p : TokenPayload) (roles : List String)
    (v w : String)
    → decode_verified_token jwt oidc token ≡ ok p
    → p.rag_roles ≡ some roles
    → In v (role_values rag_clearance_prefix roles)
    → In w (role_values rag_clearance_prefix roles)
    → v ≢ w
    → parse_claims jwt oidc token
      ≡ err (conflicting_clearance (to_set (role_values rag_clearance_prefix roles)))
unfolding parse_claims
parse_claims-conflict jwt oidc token p roles v w d e h k ne =
    rw d (claims_of_payload-conflict p roles v w e h k ne)
