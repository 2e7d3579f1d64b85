-- ===== src/Access/Metadata.antt =====
-- services/common/common/metadata.py and versioning.py: the tags of a document and the checks of
-- tags against an identity.
pub mod Authority
use nexus_rag.Base.{
  String, Bool, true, false, not, ◌&&◌, ◌||◌, ◌++◌, Option, none, some, List, [], ◌∷◌, any, all,
  is_empty, contains, str_eq, is_truthy, if◌then◌else◌, Result, ok, err,
}

abbrev all_authenticated_access_scope : String
all_authenticated_access_scope = "ALL_AUTHENTICATED"

abbrev pub no_releasability_restriction : String
no_releasability_restriction = "NONE"

-- Every value is the unrestricted one, or is held.
unfoldable pub releasability_authorized : List String → List String → Bool
releasability_authorized values held =
    all (λ value. str_eq value no_releasability_restriction || contains value held) values

-- The set, as a list of its elements. `if org:` passes over an empty name.
abbrev org_values : Option String → List String
org_values none = []
org_values (some org) = if is_truthy org then org ∷ [] else []

unfoldable pub access_scope_values : String → List String → Option String → List String
access_scope_values sub groups org =
    all_authenticated_access_scope ∷ sub ∷ (groups ++ org_values org)

-- The two sets share an element.
unfoldable pub access_scope_authorized : List String → String → List String → Option String → Bool
unfolding access_scope_values
access_scope_authorized access_scope sub groups org =
    any (λ value. contains value (access_scope_values sub groups org)) access_scope

-- What an uploader submits (DocumentMetadataIn).
pub record DocumentMetadataIn : Type 0 where
  pub classification : String
  pub releasability : List String
  pub access_scope : List String
  pub source_originator : String
  pub doc_type : String
  pub program_community : Option String
  pub effective_date : Option String
  pub supersedes_document_id : Option String

pub data MetadataError : Type 0 where
  above_clearance : String → MetadataError
  not_held : List String → MetadataError

abbrev pub error_unless {ℓ} : {E : Type ℓ} → Bool → E → List E
error_unless true e = []
error_unless false e = e ∷ []

abbrev pub raise_any {ℓ} : {E : Type ℓ} → List E → Result (List E) (Unit {0})
raise_any [] = ok tt
raise_any (e ∷ es) = err (e ∷ es)

unfoldable pub validate_against_claims :
    DocumentMetadataIn → List String → List String → Result (List MetadataError) (Unit {0})
validate_against_claims metadata allowed held = raise_any (
    error_unless (contains metadata.classification allowed)
      (above_clearance metadata.classification)
    ++ error_unless (releasability_authorized metadata.releasability held)
        (not_held metadata.releasability))
