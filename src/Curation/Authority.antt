-- ===== src/Curation/Authority.antt =====
-- services/ingestion-api/app/routes/curate.py: the guards of a decision, and the two lists.
pub mod Standing
pub mod Queue
use nexus_rag.Base.{
  String, Bool, true, false, not, ◌&&◌, ◌||◌, ◌≡◌, Option, none, some, List, [], ◌∷◌, filter,
  is_empty, is_truthy, contains, str_eq, Result, ok, err, ◌>>=◌, ◌>>◌, require, if◌then◌else◌,
}
use nexus_rag.Document.{Uuid, Document, Status, pending_review, approved, status_eq, status_text}
use nexus_rag.Access.Claims.{UserClaims, clearance, releasability, curatable_orgs, can_curate_org}
use nexus_rag.Access.Levels.{ClassificationLevel, allowed_classifications}
use nexus_rag.Access.Metadata.{releasability_authorized, access_scope_authorized}
use nexus_rag.Database.{Database, find_document}
use nexus_rag.Curation.Http.{
  HttpError, not_found, forbidden_clearance, forbidden_releasability, forbidden_scope,
  conflict_status,
}

-- `access_scope_authorized(doc.access_scope, sub=user.sub, groups=user.groups, org=user.org)`
abbrev pub in_scope : Document → UserClaims → Bool
in_scope doc user = access_scope_authorized doc.access_scope user.sub user.groups user.org

unfoldable pub visible_to_curator : Document → UserClaims → Bool
visible_to_curator doc user =
    if not (status_eq doc.status pending_review) then true else in_scope doc user

unfoldable pub authorized_for_tags :
    UserClaims → String → List String → List ClassificationLevel → Bool
authorized_for_tags user classification values levels =
    if not (contains classification (allowed_classifications levels (clearance user)))
    then false
    else releasability_authorized values (releasability user)

unfoldable pub check_curator_authority :
    UserClaims → Document → List ClassificationLevel → Result HttpError (Unit {0})
check_curator_authority user doc levels = do
  require (can_curate_org user doc.owner_org) not_found
  require (contains doc.classification (allowed_classifications levels (clearance user)))
      forbidden_clearance
  require (releasability_authorized doc.releasability (releasability user))
      (forbidden_releasability doc.releasability)
  require (not (status_eq doc.status pending_review && not (in_scope doc user))) forbidden_scope

-- The row lock of `lock=True` has no effect on what one request reads.
abbrev pub load_row :
    Option Document → UserClaims → Status → List ClassificationLevel → Result HttpError Document
load_row none user status levels = err not_found
load_row (some doc) user status levels = do
  check_curator_authority user doc levels
  require (status_eq doc.status status) (conflict_status doc.status)
  ok doc

unfoldable pub load_pending : Database → Uuid → UserClaims → Result HttpError Document
unfolding check_curator_authority
load_pending db doc_id user =
    load_row (find_document doc_id db.documents) user pending_review db.classification_levels

unfoldable pub load_approved : Database → Uuid → UserClaims → Result HttpError Document
unfolding check_curator_authority
load_approved db doc_id user =
    load_row (find_document doc_id db.documents) user approved db.classification_levels

-- the tests that both lists apply to the rows that the query returned
abbrev pub listed : UserClaims → Document → Bool
listed user doc =
    releasability_authorized doc.releasability (releasability user) && visible_to_curator doc user

abbrev pub in_authority : UserClaims → List String → Document → Bool
in_authority user allowed doc =
    contains doc.owner_org (curatable_orgs user) && contains doc.classification allowed

unfoldable pub list_queue : Database → UserClaims → List Document
unfolding visible_to_curator
list_queue db user =
    let allowed = allowed_classifications db.classification_levels (clearance user) in
    let docs =
      filter (λ doc. status_eq doc.status pending_review && in_authority user allowed doc)
        db.documents in
    filter (listed user) docs

-- The query parameters; `ilike` is the database's search, and the order is the query's.
pub record ListQuery : Type 0 where
  pub status : String
  pub classification : String
  pub q : String

module _ (ilike : String → String → Bool) where
  abbrev pub matches : ListQuery → Document → Bool
  matches query doc =
      (not (is_truthy query.status) || str_eq (status_text doc.status) query.status)
      && (not (is_truthy query.classification) || str_eq doc.classification query.classification)
      && (not (is_truthy query.q)
          || ilike doc.filename query.q
          || ilike doc.source_originator query.q
          || ilike doc.doc_type query.q
          || ilike doc.uploader_username query.q)

  unfoldable list_documents : Database → UserClaims → ListQuery → List Document
  unfolding visible_to_curator
  list_documents db user query =
      let allowed = allowed_classifications db.classification_levels (clearance user) in
      if is_empty (curatable_orgs user)
      then filter (matches query) db.documents
      else filter (listed user)
          (filter (λ doc. in_authority user allowed doc && matches query doc) db.documents)
