-- ===== src/Examples/Access.antt =====
-- The access rules at one portal: three levels, one identity, one chunk.
use nexus_rag.Base.{
  ℕ, String, ◌≡◌, ◌≢◌, ◌↔◌, inl, refl, true, false, none, some, List, [], ◌∷◌, arith, In, All, ok,
  err, str_eq, str_eq_iff,
}
use nexus_rag.Base.Int.{pos}
use nexus_rag.Document.{approved}
use nexus_rag.Access.Claims.{
  UserClaims, TokenPayload, Jwt, OidcSettings, rag_clearance_prefix, role_values, clearance,
  parse_claims, invalid_token,
}
use nexus_rag.Access.Claims.Clearance.{parse_claims-clearance}
use nexus_rag.Access.Levels.{ClassificationLevel, allowed_classifications}
use nexus_rag.Access.Levels.Cleared.{IsCleared, allowed_classifications_iff}
use nexus_rag.Access.Metadata.{DocumentMetadataIn, validate_against_claims}
use nexus_rag.Access.Metadata.Authority.{IsHeld, validate_against_claims_iff}
use nexus_rag.Access.Payload.{Payload, passes}
use nexus_rag.Access.Filter.{build_access_filter}
use nexus_rag.Access.Filter.Visible.{IsVisible, build_access_filter_iff}

abbrev open_level : ClassificationLevel
open_level = record { value = "UNCLASSIFIED"; rank = pos 0; active = true }

abbrev cui_level : ClassificationLevel
cui_level = record { value = "CUI"; rank = pos 1; active = true }

abbrev secret_level : ClassificationLevel
secret_level = record { value = "SECRET"; rank = pos 2; active = true }

abbrev pub levels : List ClassificationLevel
levels = open_level ∷ cui_level ∷ secret_level ∷ []

abbrev token_of : List String → TokenPayload
token_of roles = record {
  sub = some "u-1";
  preferred_username = some "alice";
  groups = some ("signal-corps" ∷ []);
  org = some "hq";
  rag_roles = some roles;
}

abbrev pub jwt_of : List String → Jwt
jwt_of roles = record {
  Key = ℕ;
  signing_key = λ t. ok 7;
  decode = λ t k algorithms audience issuers. ok (token_of roles);
  decode_unverified = λ t. err (invalid_token "DecodeError");
}

abbrev pub settings : OidcSettings
settings = record {
  issuers = "https://idp/realms/nexus" ∷ [];
  audience = "nexus-rag";
  skip_verify = false;
}

abbrev pub alice_roles : List String
alice_roles =
    "rag-query" ∷ "rag-clearance:CUI" ∷ "rag-releasability:FVEY" ∷ "rag-clearance:CUI" ∷ []

abbrev pub alice : UserClaims
alice = record {
  sub = "u-1";
  preferred_username = "alice";
  groups = "signal-corps" ∷ [];
  org = some "hq";
  rag_roles = alice_roles;
}

pub alice_accepted : parse_claims (jwt_of alice_roles) settings "Bearer abc" ≡ ok alice
unfolding parse_claims role_values
alice_accepted = refl

alice_level : In "CUI" (role_values rag_clearance_prefix alice_roles)
unfolding role_values
alice_level = inl refl

parse_claims-clearance_example : "CUI" ≡ clearance alice
parse_claims-clearance_example =
    parse_claims-clearance (jwt_of alice_roles) settings "Bearer abc" alice "CUI" alice_accepted
      alice_level

pub differ : (a b : String) → str_eq a b ≡ false → a ≢ b
differ a b e q = ground (arith, str_eq_iff a b)

allowed_classifications_iff_example :
    In "CUI" (allowed_classifications levels "SECRET") ↔ IsCleared levels "SECRET" "CUI"
allowed_classifications_iff_example = allowed_classifications_iff levels "SECRET" "CUI"

abbrev pub chunk : Payload
chunk = record {
  document_id = 5;
  chunk_index = 0;
  text = "Antenna placement";
  heading = none;
  page_or_slide = some 1;
  content_type = "text";
  embedding_model = some "bge-m3";
  embedded_at = 1000;
  filename = "radio.pdf";
  doc_type = "manual";
  source_originator = "hq";
  classification = "CUI";
  releasability = "FVEY" ∷ [];
  access_scope = "signal-corps" ∷ [];
  status = approved;
}

build_access_filter_iff_example :
    (passes (build_access_filter alice ("UNCLASSIFIED" ∷ "CUI" ∷ [])) chunk ≡ true)
    ↔ IsVisible alice ("UNCLASSIFIED" ∷ "CUI" ∷ []) chunk
build_access_filter_iff_example = build_access_filter_iff alice ("UNCLASSIFIED" ∷ "CUI" ∷ []) chunk

abbrev submission : DocumentMetadataIn
submission = record {
  classification = "CUI";
  releasability = "NONE" ∷ "FVEY" ∷ [];
  access_scope = "signal-corps" ∷ [];
  source_originator = "hq";
  doc_type = "manual";
  program_community = none;
  effective_date = none;
  supersedes_document_id = none;
}

validate_against_claims_iff_example :
    (validate_against_claims submission ("UNCLASSIFIED" ∷ "CUI" ∷ []) ("FVEY" ∷ []) ≡ ok tt) ↔ (
      In {A = String} "CUI" ("UNCLASSIFIED" ∷ "CUI" ∷ [])
      × All (IsHeld ("FVEY" ∷ [])) ("NONE" ∷ "FVEY" ∷ []))
validate_against_claims_iff_example =
    validate_against_claims_iff submission ("UNCLASSIFIED" ∷ "CUI" ∷ []) ("FVEY" ∷ [])
