-- ===== src/Curation/Authority/Standing.antt =====
-- Who may decide on a document, and what a caller without standing learns.
use nexus_rag.Base.{
  Bool, true, false, not, ◌&&◌, ◌≡◌, ◌↔◌, refl, inl, inr, Option, none, some, List, [], arith,
  contains, In, contains-In, In-contains, Result, ok, err, require, Bool-cases, ◌>>=◌, ◌⊎◌, subst,
}
use nexus_rag.Document.{
  Uuid, Document, Status, pending_review, approved, status_eq, status_eq→eq, status_eq_refl,
}
use nexus_rag.Access.Claims.{UserClaims, clearance, releasability, curatable_orgs, can_curate_org}
use nexus_rag.Access.Levels.{ClassificationLevel, allowed_classifications}
use nexus_rag.Access.Metadata.{releasability_authorized}
use nexus_rag.Database.{Database, find_document}
use nexus_rag.Curation.Http.{HttpError, not_found, forbidden_scope, conflict_status}
use nexus_rag.Curation.Authority.{
  in_scope, check_curator_authority, load_row, load_pending, load_approved,
}

-- The standing that a decision on a document asks for.
pub record HasStanding (user : UserClaims) (doc : Document) (levels : List ClassificationLevel)
    : Type 0 where
  pub of_org : In doc.owner_org (curatable_orgs user)
  pub cleared : In doc.classification (allowed_classifications levels (clearance user))
  pub released : releasability_authorized doc.releasability (releasability user) ≡ true
  pub scoped : doc.status ≡ pending_review → in_scope doc user ≡ true

standing_of :
    (user : UserClaims) (doc : Document) (levels : List ClassificationLevel)
    → check_curator_authority user doc levels ≡ ok tt
    → HasStanding user doc levels
unfolding check_curator_authority can_curate_org
standing_of user doc levels e = record {
  of_org = contains-In doc.owner_org (curatable_orgs user) (ground arith);
  cleared =
      contains-In doc.classification (allowed_classifications levels (clearance user))
        (ground arith);
  released = ground arith;
  scoped = λ q. ground (arith, q, status_eq_refl doc.status);
}

of_standing :
    (user : UserClaims) (doc : Document) (levels : List ClassificationLevel)
    → HasStanding user doc levels
    → check_curator_authority user doc levels ≡ ok tt
unfolding check_curator_authority can_curate_org
of_standing user doc levels h =
    rw
      (
        In-contains doc.owner_org (curatable_orgs user) h.of_org,
        In-contains doc.classification (allowed_classifications levels (clearance user)) h.cleared,
        h.released,
      )
      (scoped (Bool-cases (status_eq doc.status pending_review)))
  where
    scoped :
        ((status_eq doc.status pending_review ≡ true)
          ⊎ (status_eq doc.status pending_review ≡ false))
        → require
            (not (status_eq doc.status pending_review && not (in_scope doc user)))
            forbidden_scope
          ≡ ok tt
    scoped (inl q) = rw (q, h.scoped (status_eq→eq doc.status pending_review q))
    scoped (inr q) = rw q

-- The checks before a decision pass exactly for a curator of the document's organisation who is
-- cleared for its classification, holds its releasability values, and, while it is pending, is in
-- its access scope.
pub check_curator_authority_iff :
    (user : UserClaims) (doc : Document) (levels : List ClassificationLevel)
    → (check_curator_authority user doc levels ≡ ok tt) ↔ HasStanding user doc levels
check_curator_authority_iff user doc levels =
    (standing_of user doc levels, of_standing user doc levels)

pub load_row-ok :
    (row : Option Document) (user : UserClaims) (status : Status)
    (levels : List ClassificationLevel) (doc : Document)
    → load_row row user status levels ≡ ok doc
    → (row ≡ some doc) × (doc.status ≡ status) × HasStanding user doc levels
load_row-ok none user status levels doc e = cc
load_row-ok (some d) user status levels doc e =
    go (check_curator_authority user d levels) refl (status_eq d.status status) refl e
  where
    go :
        (r : Result HttpError (Unit {0}))
        → check_curator_authority user d levels ≡ r
        → (b : Bool) → status_eq d.status status ≡ b
        → (r >>= λ _. require b (conflict_status d.status) >>= λ _. ok d) ≡ ok doc
        → (some d ≡ some doc) × (doc.status ≡ status) × HasStanding user doc levels
    go (ok tt) h true k q =
        let same : d ≡ doc = cc in
        subst (λ x. (some d ≡ some x) × (x.status ≡ status) × HasStanding user x levels) same
          (refl, status_eq→eq d.status status k, standing_of user d levels h)
    go (ok tt) h false k q = cc
    go (err x) h b k q = cc

ok-load_row :
    (user : UserClaims) (status : Status) (levels : List ClassificationLevel) (doc : Document)
    → doc.status ≡ status
    → HasStanding user doc levels
    → load_row (some doc) user status levels ≡ ok doc
ok-load_row user status levels doc e h =
    rw (of_standing user doc levels h, e, status_eq_refl status)

-- A pending document loads exactly when the row with its id is that pending document and the
-- curator has standing.
pub load_pending_iff :
    (db : Database) (id : Uuid) (user : UserClaims) (doc : Document)
    → (load_pending db id user ≡ ok doc) ↔ (
        (find_document id db.documents ≡ some doc)
        × (doc.status ≡ pending_review)
        × HasStanding user doc db.classification_levels)
unfolding load_pending
load_pending_iff db id user doc = (
  load_row-ok (find_document id db.documents) user pending_review db.classification_levels doc,
  λ (row, status, standing).
      rw row (ok-load_row user pending_review db.classification_levels doc status standing),
)

outside_row :
    (user : UserClaims) (status : Status) (levels : List ClassificationLevel) (doc : Document)
    → ¬ In doc.owner_org (curatable_orgs user)
    → load_row (some doc) user status levels ≡ err not_found
unfolding check_curator_authority can_curate_org
outside_row user status levels doc out =
    elim (Bool-cases (contains doc.owner_org (curatable_orgs user))) [
      | inl q ↦ absurd (out (contains-In doc.owner_org (curatable_orgs user) q))
      | inr q ↦ rw q
    ]

-- A caller who curates none of a document's organisation gets the answer of a missing document from
-- the routes that load a pending or an approved one, whatever the document's status and tags are.
pub load-hidden :
    (db : Database) (id : Uuid) (user : UserClaims) (doc : Document)
    → find_document id db.documents ≡ some doc
    → ¬ In doc.owner_org (curatable_orgs user)
    → (load_pending db id user ≡ load_pending (record db { documents = [] }) id user)
      × (load_approved db id user ≡ load_approved (record db { documents = [] }) id user)
unfolding load_pending load_approved find_document
load-hidden db id user doc row out = rw row (
  outside_row user pending_review db.classification_levels doc out,
  outside_row user approved db.classification_levels doc out,
)
