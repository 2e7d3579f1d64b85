-- ===== src/Access/Versioning.antt =====
-- services/common/common/versioning.py: whether a submission may name a document as the one it
-- supersedes.
pub mod Target
use nexus_rag.Base.{
  String, Bool, true, false, not, ◌++◌, List, contains, str_eq, Result, ok, err, if◌then◌else◌, [],
  ◌∷◌,
}
use nexus_rag.Document.{Document, Status, approved, status_eq}
use nexus_rag.Access.Metadata.{releasability_authorized, error_unless, raise_any}

pub data SupersedeError : Type 0 where
  other_org : SupersedeError
  target_status : Status → SupersedeError
  target_above_clearance : SupersedeError
  target_not_held : SupersedeError

unfoldable pub validate_supersede_target :
    Document → String → List String → List String → Result (List SupersedeError) (Unit {0})
validate_supersede_target old_doc new_owner_org allowed held =
    if not (str_eq old_doc.owner_org new_owner_org)
    then err (other_org ∷ [])
    else raise_any (
        error_unless (status_eq old_doc.status approved) (target_status old_doc.status)
        ++ error_unless (contains old_doc.classification allowed) target_above_clearance
        ++ error_unless (releasability_authorized old_doc.releasability held) target_not_held)
