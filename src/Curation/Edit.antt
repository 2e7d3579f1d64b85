-- ===== src/Curation/Edit.antt =====
-- services/ingestion-api/app/routes/curate.py: `edit_metadata`.
pub mod Authority
use nexus_rag.Base.{
  String, Bool, true, false, not, ◌&&◌, ◌||◌, Option, none, some, List, [], ◌∷◌, ◌++◌, is_truthy,
  is_some, str_eq, Result, ok, err, ◌>>=◌, ◌>>◌, require, if◌then◌else◌,
}
use nexus_rag.Document.{
  Uuid, Time, Document, Status, pending_review, approved, rejected, queued, processing, embedded,
  superseded, failed, purging, purged, status_eq,
}
use nexus_rag.Access.Claims.{UserClaims, can_curate_org}
use nexus_rag.Vector.Exec.{pure}
use nexus_rag.Vector.Client.{Client, Fields, or_keep}
use nexus_rag.Vector.Store.{update_document_payload}
use nexus_rag.Database.{
  Database, find_document, save_document, add_entry, Field, classification_field,
  releasability_field, access_scope_field, source_originator_field, doc_type_field,
  program_community_field, effective_date_field, edit_entry,
}
use nexus_rag.Curation.Http.{HttpError, not_found, conflict_status, RouteError, commit_failed}
use nexus_rag.Curation.Authority.{authorized_for_tags}
use nexus_rag.Curation.World.{World, Moment, write_both, refuse}
use nexus_rag.Curation.Changes.{entry}

pub record DocumentEdit : Type 0 where
  pub classification : Option String
  pub releasability : Option (List String)
  pub access_scope : Option (List String)
  pub source_originator : Option String
  pub doc_type : Option String
  pub program_community : Option String
  pub effective_date : Option String

-- EDITABLE_STATUSES
unfoldable pub is_editable : Status → Bool
is_editable s = status_eq s pending_review || status_eq s approved || status_eq s rejected

-- `==` on two lists of texts
unfoldable texts_eq : List String → List String → Bool
texts_eq [] [] = true
texts_eq [] (y ∷ ys) = false
texts_eq (x ∷ xs) [] = false
texts_eq (x ∷ xs) (y ∷ ys) = str_eq x y && texts_eq xs ys

-- the value, if it is given and differs from the row's
abbrev changed_text : Option String → String → Option String
changed_text none old = none
changed_text (some new) old = if str_eq new old then none else some new

unfoldable changed_texts : Option (List String) → List String → Option (List String)
unfolding texts_eq
changed_texts none old = none
changed_texts (some new) old = if texts_eq new old then none else some new

-- `changed_qdrant`, before the status is added
unfoldable pub changed_tags : DocumentEdit → Document → Fields
unfolding changed_texts
changed_tags body doc = record {
  classification = changed_text body.classification doc.classification;
  releasability = changed_texts body.releasability doc.releasability;
  access_scope = changed_texts body.access_scope doc.access_scope;
  status = none;
}

-- `doc.program_community = body.program_community or None`, if it is given
abbrev or_none : Option String → Option String → Option String
or_none none old = old
or_none (some new) old = if is_truthy new then some new else none

unfoldable pub edited_row : DocumentEdit → Document → Document
edited_row body doc = record doc {
  classification = or_keep (changed_tags body doc).classification doc.classification;
  releasability = or_keep (changed_tags body doc).releasability doc.releasability;
  access_scope = or_keep (changed_tags body doc).access_scope doc.access_scope;
  source_originator = or_keep body.source_originator doc.source_originator;
  doc_type = or_keep body.doc_type doc.doc_type;
  program_community = or_none body.program_community doc.program_community;
  effective_date = or_none body.effective_date doc.effective_date;
}

unfoldable pub tags_changed : DocumentEdit → Document → Bool
unfolding changed_tags
tags_changed body doc =
    is_some (changed_tags body doc).classification || is_some (changed_tags body doc).releasability

-- whether the edit sends the document back to the queue
unfoldable pub is_demoted : Database → UserClaims → DocumentEdit → Document → Bool
unfolding tags_changed edited_row
is_demoted db user body doc =
    tags_changed body doc
    && not (status_eq doc.status pending_review)
    && not (
        authorized_for_tags user (edited_row body doc).classification
          (edited_row body doc).releasability db.classification_levels)

abbrev pub demote : Bool → Document → Document
demote true doc = record doc { status = pending_review; reviewed_by_sub = none; reviewed_at = none }
demote false doc = doc

-- the row that `edit_metadata` writes
unfoldable pub resulting_row : Database → UserClaims → Time → DocumentEdit → Document → Document
unfolding is_demoted edited_row
resulting_row db user now body doc =
    record (demote (is_demoted db user body doc) (edited_row body doc)) { updated_at = now }

abbrev with_status : Bool → Fields → Fields
with_status true fields = record fields { status = some pending_review }
with_status false fields = fields

unfoldable pub changed_qdrant : Database → UserClaims → DocumentEdit → Document → Fields
unfolding is_demoted changed_tags
changed_qdrant db user body doc = with_status (is_demoted db user body doc) (changed_tags body doc)

abbrev pub is_nothing : Fields → Bool
is_nothing fields = not (
    is_some fields.classification
    || is_some fields.releasability
    || is_some fields.access_scope
    || is_some fields.status)

abbrev pub before_if {ℓ} : {A : Type ℓ} → Option A → A → Option A
before_if none old = none
before_if (some new) old = some old

-- `{k: before[k] for k in changed_qdrant}`
abbrev pub before : Fields → Document → Fields
before fields doc = record {
  classification = before_if fields.classification doc.classification;
  releasability = before_if fields.releasability doc.releasability;
  access_scope = before_if fields.access_scope doc.access_scope;
  status = before_if fields.status doc.status;
}

abbrev pub given {ℓ} : {A : Type ℓ} → Option A → Field → List Field
given none f = []
given (some a) f = f ∷ []

-- `body.model_dump(exclude_none=True)`
abbrev given_fields : DocumentEdit → List Field
given_fields body =
    given body.classification classification_field
    ++ given body.releasability releasability_field
    ++ given body.access_scope access_scope_field
    ++ given body.source_originator source_originator_field
    ++ given body.doc_type doc_type_field
    ++ given body.program_community program_community_field
    ++ given body.effective_date effective_date_field

unfoldable pub edit_rows : UserClaims → Time → DocumentEdit → Bool → Document → Database → Database
edit_rows user now body demoted doc db =
    add_entry (entry user now doc.id (edit_entry (given_fields body) demoted))
      (save_document doc db)

abbrev pub edit_found : UserClaims → Option Document → Result HttpError Document
edit_found user none = err not_found
edit_found user (some doc) = do
  require (can_curate_org user doc.owner_org) not_found
  require (is_editable doc.status) (conflict_status doc.status)
  ok doc

unfoldable pub load_editable : Database → Uuid → UserClaims → Result HttpError Document
load_editable db doc_id user = edit_found user (find_document doc_id db.documents)

module _ (c : Client) where
  open c use {State}

  -- the commit of an edit that the chunks hold no copy of
  abbrev pub commit_only :
      Bool → World State → Database → Document → Result RouteError Document × World State
  commit_only true w committed doc = (ok doc, record w { db = committed })
  commit_only false w committed doc = (err commit_failed, w)

  abbrev pub edit_both :
      Moment
      → UserClaims
      → DocumentEdit
      → World State
      → Document
      → Result RouteError Document × World State
  edit_both m user body w found =
      let fields = changed_qdrant w.db user body found in
      let doc = resulting_row w.db user m.now body found in
      write_both m.commits w (update_document_payload c doc.id found.classification fields)
        (pure tt) (update_document_payload c doc.id doc.classification (before fields found))
        (edit_rows user m.now body (is_demoted w.db user body found) doc w.db) doc

  abbrev pub edit_writes :
      Moment
      → UserClaims
      → DocumentEdit
      → World State
      → Result HttpError Document
      → Result RouteError Document × World State
  edit_writes m user body w (err e) = refuse e w
  edit_writes m user body w (ok found) =
      if is_nothing (changed_qdrant w.db user body found)
      then commit_only m.commits w
          (edit_rows user m.now body false (resulting_row w.db user m.now body found) w.db)
          (resulting_row w.db user m.now body found)
      else edit_both m user body w found

  unfoldable pub edit_metadata :
      Moment
      → UserClaims
      → Uuid
      → DocumentEdit
      → World State
      → Result RouteError Document × World State
  edit_metadata m user doc_id body w = edit_writes m user body w (load_editable w.db doc_id user)
