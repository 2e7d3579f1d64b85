-- ===== src/Access/Claims.antt =====
-- services/common/common/claims.py: the claims of a verified token.
pub mod Clearance
use nexus_rag.Base.{
  ℕ, ◌<◌, String, Bool, true, false, not, ◌&&◌, ◌||◌, Option, none, some, List, [], ◌∷◌, length,
  contains, strip_prefix, strip, is_space, to_set, ltb, if◌then◌else◌, Result, ok, err, ◌>>=◌, ◌>>◌,
  require,
}

abbrev rag_curate_prefix : String
rag_curate_prefix = "rag-curate:"

abbrev rag_releasability_prefix : String
rag_releasability_prefix = "rag-releasability:"

abbrev pub rag_clearance_prefix : String
rag_clearance_prefix = "rag-clearance:"

pub record UserClaims : Type 0 where
  pub sub : String
  pub preferred_username : String
  pub groups : List String
  pub org : Option String
  pub rag_roles : List String

-- `[role[len(p):] for role in roles if role.startswith(p)]`
unfoldable pub role_values : String → List String → List String
role_values prefix [] = []
role_values prefix (role ∷ roles) =
    let rest = role_values prefix roles in
    elim (strip_prefix prefix role) [ none ↦ rest | some value ↦ value ∷ rest ]

unfoldable pub can_ingest : UserClaims → Bool
can_ingest c = contains "rag-ingest" c.rag_roles

unfoldable pub can_query : UserClaims → Bool
can_query c = contains "rag-query" c.rag_roles

unfoldable pub is_admin : UserClaims → Bool
is_admin c = contains "rag-admin" c.rag_roles

unfoldable pub can_purge : UserClaims → Bool
can_purge c = contains "rag-purge" c.rag_roles

-- the loop of the property `clearance`: the first role with the prefix, or ""
unfoldable pub first_clearance : List String → String
first_clearance [] = ""
first_clearance (role ∷ roles) =
    let rest = first_clearance roles in
    elim (strip_prefix rag_clearance_prefix role) [ none ↦ rest | some value ↦ value ]

unfoldable pub clearance : UserClaims → String
unfolding first_clearance
clearance c = first_clearance c.rag_roles

unfoldable pub releasability : UserClaims → List String
unfolding role_values
releasability c = role_values rag_releasability_prefix c.rag_roles

unfoldable pub curatable_orgs : UserClaims → List String
unfolding role_values
curatable_orgs c = role_values rag_curate_prefix c.rag_roles

unfoldable pub can_curate_org : UserClaims → String → Bool
unfolding curatable_orgs
can_curate_org c org = contains org (curatable_orgs c)

-- The fields of a token's payload that are read; `none` is a key that is absent.
pub record TokenPayload : Type 0 where
  pub sub : Option String
  pub preferred_username : Option String
  pub groups : Option (List String)
  pub org : Option String
  pub rag_roles : Option (List String)

pub data TokenError : Type 0 where
  invalid_token : String → TokenError  -- jwt.PyJWTError, by its class
  conflicting_clearance : List String → TokenError
  missing_sub : TokenError

-- PyJWT: `get_signing_key_from_jwt`, `jwt.decode` with its checks, and `jwt.decode` with none.
pub record Jwt : Type 1 where
  pub Key : Type 0
  pub signing_key : String → Result TokenError Key
  pub decode : String → Key → List String → String → List String → Result TokenError TokenPayload
  pub decode_unverified : String → Result TokenError TokenPayload

-- OIDC_ISSUERS, OIDC_AUDIENCE, OIDC_SKIP_VERIFY
pub record OidcSettings : Type 0 where
  pub issuers : List String
  pub audience : String
  pub skip_verify : Bool

abbrev or_else : {A : Type 0} → Option A → A → A
or_else none a = a
or_else (some b) a = b

abbrev removeprefix : String → String → String
removeprefix prefix s = or_else (strip_prefix prefix s) s

unfoldable pub decode_verified_token : Jwt → OidcSettings → String → Result TokenError TokenPayload
unfolding strip is_space
decode_verified_token jwt oidc bearer_token =
    let token = strip is_space (removeprefix "Bearer " bearer_token) in
    if oidc.skip_verify
    then jwt.decode_unverified token
    else jwt.signing_key token >>= λ key.
        jwt.decode token key ("RS256" ∷ []) oidc.audience oidc.issuers

abbrev sub_of : Option String → Result TokenError String
sub_of none = err missing_sub
sub_of (some s) = ok s

-- `parse_claims` after the token's payload is decoded
unfoldable pub claims_of_payload : TokenPayload → Result TokenError UserClaims
claims_of_payload payload = do
  let rag_roles = or_else payload.rag_roles []
  let clearances = to_set (role_values rag_clearance_prefix rag_roles)
  require (not (ltb 1 (length clearances))) (conflicting_clearance clearances)
  sub ← sub_of payload.sub
  ok (record {
    sub = sub;
    preferred_username = or_else payload.preferred_username sub;
    groups = or_else payload.groups [];
    org = payload.org;
    rag_roles = rag_roles;
  })

unfoldable pub parse_claims : Jwt → OidcSettings → String → Result TokenError UserClaims
unfolding claims_of_payload decode_verified_token
parse_claims jwt oidc bearer_token =
    decode_verified_token jwt oidc bearer_token >>= claims_of_payload
