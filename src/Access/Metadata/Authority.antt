-- ===== src/Access/Metadata/Authority.antt =====
-- What an accepted submission's tags are, and when an identity matches a scope.
use mathlib.Core.Bool.{false≢true}
use nexus_rag.Base.{
  sym, ◌∙◌, String, true, ◌≡◌, ◌↔◌, ◌⊎◌, inl, inr, List, [], ◌∷◌, arith, contains, contains-In,
  In-contains, refl, str_eq_iff, In, All, Result, ok, err, Bool-cases,
}
use nexus_rag.Access.Metadata.{
  DocumentMetadataIn, no_releasability_restriction, releasability_authorized,
  validate_against_claims, MetadataError, above_clearance, not_held,
}

abbrev pub IsHeld : List String → String → Type 0
IsHeld held v = (v ≡ no_releasability_restriction) ⊎ In v held

pub releasability_authorized-All :
    (values held : List String)
    → (releasability_authorized values held ≡ true) ↔ All (IsHeld held) values
unfolding releasability_authorized
releasability_authorized-All [] held = (λ _. tt, λ _. refl)
releasability_authorized-All (v ∷ values) held =
    let ih = releasability_authorized-All values held in
    (
      λ h. (
        ground (arith, str_eq_iff v no_releasability_restriction, contains-In v held),
        ih.0 (ground arith),
      ),
      λ h. ground (arith, str_eq_iff v no_releasability_restriction, In-contains v held, ih.1 h.1),
    )

-- A submission passes exactly when the uploader is cleared for its classification and every one of
-- its releasability values is unrestricted or held.
pub validate_against_claims_iff :
    (m : DocumentMetadataIn) (allowed held : List String)
    → (validate_against_claims m allowed held ≡ ok tt)
      ↔ (In m.classification allowed × All (IsHeld held) m.releasability)
unfolding validate_against_claims
validate_against_claims_iff m allowed held =
    let tags = releasability_authorized-All m.releasability held in
    elim (Bool-cases (contains m.classification allowed)) [
      | inl c ↦ elim (Bool-cases (releasability_authorized m.releasability held)) [
        | inl r ↦ rw (c, r) (λ _. (contains-In m.classification allowed c, tags.0 r), λ _. refl)
        | inr r ↦
            rw (c, r)
              (
                λ e. absurd (refused (not_held m.releasability) [] e),
                λ k. absurd (false≢true (sym r ∙ tags.1 k.1)),
              )
      ]
      | inr c ↦ rw c (
        λ e. absurd (refused (above_clearance m.classification) _ e),
        λ k. absurd (false≢true (sym c ∙ In-contains m.classification allowed k.0)),
      )
    ]
  where
    refused :
        (e : MetadataError) (es : List MetadataError)
        → Path (Result (List MetadataError) (Unit {0})) (err (e ∷ es)) (ok tt)
        → ⊥
    refused e es k = cc
