-- ===== src/Access/Versioning/Target.antt =====
-- Which targets pass, and what a caller of another organisation learns.
use nexus_rag.Base.{
  ◌≡◌, ◌↔◌, refl, inl, inr, String, Bool, true, false, ◌++◌, List, [], ◌∷◌, In, All, contains,
  contains-In, In-contains, str_eq, str_eq_iff, Result, ok, err, Bool-cases,
}
use nexus_rag.Document.{Document, approved, status_eq, status_eq→eq}
use nexus_rag.Access.Metadata.{releasability_authorized, error_unless, raise_any}
use nexus_rag.Access.Metadata.Authority.{IsHeld, releasability_authorized-All}
use nexus_rag.Access.Versioning.{SupersedeError, other_org, validate_supersede_target}

raise_any-ok : (es : List SupersedeError) → raise_any es ≡ ok tt → es ≡ []
raise_any-ok [] e = refl
raise_any-ok (x ∷ es) e = cc

no_errors :
    (a b c : Bool) (x y z : SupersedeError)
    → error_unless a x ++ error_unless b y ++ error_unless c z ≡ []
    → (a ≡ true) × (b ≡ true) × (c ≡ true)
no_errors true true true x y z e = (refl, refl, refl)
no_errors true true false x y z e = cc
no_errors true false c x y z e = cc
no_errors false b c x y z e = cc

-- What an approved document of the uploader's organisation and authority is.
pub record IsTarget (old_doc : Document) (org : String) (allowed held : List String) : Type 0 where
  pub own : old_doc.owner_org ≡ org
  pub in_force : old_doc.status ≡ approved
  pub cleared : In old_doc.classification allowed
  pub released : All (IsHeld held) old_doc.releasability

validate_supersede_target-IsTarget :
    (old_doc : Document) (org : String) (allowed held : List String)
    → validate_supersede_target old_doc org allowed held ≡ ok tt
    → IsTarget old_doc org allowed held
unfolding validate_supersede_target
validate_supersede_target-IsTarget old_doc org allowed held e =
    elim (Bool-cases (str_eq old_doc.owner_org org)) [
      | inl own ↦
          let (status, cleared, released) =
            no_errors (status_eq old_doc.status approved) (contains old_doc.classification allowed)
              (releasability_authorized old_doc.releasability held) _ _ _
              (raise_any-ok _ (rw own at e)) in
          record {
            own = (str_eq_iff old_doc.owner_org org).0 own;
            in_force = status_eq→eq old_doc.status approved status;
            cleared = contains-In old_doc.classification allowed cleared;
            released = (releasability_authorized-All old_doc.releasability held).0 released;
          }
      | inr other ↦ absurd (refused (rw other at e))
    ]
  where
    refused : Path (Result (List SupersedeError) (Unit {0})) (err (other_org ∷ [])) (ok tt) → ⊥
    refused q = cc

IsTarget-validate_supersede_target :
    (old_doc : Document) (org : String) (allowed held : List String)
    → IsTarget old_doc org allowed held
    → validate_supersede_target old_doc org allowed held ≡ ok tt
unfolding validate_supersede_target
IsTarget-validate_supersede_target old_doc org allowed held h = rw (
  (str_eq_iff old_doc.owner_org org).1 h.own,
  h.in_force,
  In-contains old_doc.classification allowed h.cleared,
  (releasability_authorized-All old_doc.releasability held).1 h.released,
)

-- A submission may supersede exactly the approved documents of its own organisation whose
-- classification its uploader is cleared for and whose releasability values are each unrestricted
-- or held.
pub validate_supersede_target_iff :
    (old_doc : Document) (org : String) (allowed held : List String)
    → (validate_supersede_target old_doc org allowed held ≡ ok tt)
      ↔ IsTarget old_doc org allowed held
validate_supersede_target_iff old_doc org allowed held = (
  validate_supersede_target-IsTarget old_doc org allowed held,
  IsTarget-validate_supersede_target old_doc org allowed held,
)
