-- ===== src/Curation/Decide.antt =====
-- services/ingestion-api/app/routes/curate.py: approve, reject and suspend, and the swap of a
-- version for the next.
pub mod Checks
pub mod Withdrawn
pub mod Released
pub mod Approved
pub mod Reverted
use nexus_rag.Base.{
  String, Bool, true, false, Option, none, some, List, is_truthy, Result, ok, err, ◌>>=◌, ◌>>◌,
  require, if◌then◌else◌,
}
use Prim.Native.String.{◌++◌}
use nexus_rag.Document.{
  Uuid, Time, Document, Status, pending_review, approved, rejected, superseded, status_eq, Decision,
  was_approved, was_rejected, was_suspended, Notification,
}
use nexus_rag.Access.Claims.{UserClaims}
use nexus_rag.Vector.Exec.{Exec, pure}
use nexus_rag.Vector.Client.{Client, Fields, or_keep}
use nexus_rag.Vector.Store.{update_document_payload, delete_document_chunks}
use nexus_rag.Database.{
  Database, find_document, save_document, add_entry, add_notification, AuditLogEntry, Action,
  Corrections, supersede_entry, approve_entry, reject_entry, suspend_entry,
}
use nexus_rag.Curation.Http.{
  HttpError, conflict_superseded_missing, conflict_superseded_status, RouteError,
}
use nexus_rag.Curation.Authority.{check_curator_authority, load_pending, load_approved}
use nexus_rag.Curation.World.{World, Moment, write_both, refuse}
use nexus_rag.Curation.Changes.{
  apply_corrections, approve_checks, approve_fields, approve_rows, approved_row, correct, entry,
  execute_supersede, notify, old_version, or_now, reject_rows, rejected_row, status_fields,
  superseded_old, superseded_row, suspend_rows, suspended_row, truthy, validate_supersede,
}

module _ (c : Client) where
  open c use {State}

  abbrev pub delete_old : Option Document → Exec State (Unit {0})
  delete_old none = pure tt
  delete_old (some old_doc) = delete_document_chunks c old_doc.id old_doc.classification

  -- the writes of `approve`, once its checks have passed
  abbrev pub approve_writes :
      Moment
      → UserClaims
      → Option Corrections
      → World State
      → Result HttpError (Document × Document × Option Document)
      → Result RouteError Document × World State
  approve_writes m user corrections w (err e) = refuse e w
  approve_writes m user corrections w (ok (found, corrected, old_doc)) =
      let doc = approved_row user m.now corrected in
      write_both m.commits w
        (update_document_payload c doc.id found.classification (approve_fields corrections))
        (delete_old old_doc)
        (update_document_payload c doc.id doc.classification (status_fields pending_review))
        (approve_rows user m.now corrections old_doc doc w.db) doc

  unfoldable pub approve :
      Moment
      → UserClaims
      → Uuid
      → Option Corrections
      → World State
      → Result RouteError Document × World State
  approve m user doc_id corrections w =
      approve_writes m user corrections w (approve_checks w.db user doc_id corrections)

  -- The writes that `reject` and `suspend` share: the row, the chunks' status, and the status that
  -- a failed commit sets them back to.
  abbrev pub status_writes :
      Moment
      → Status
      → (Document → Document)
      → (Document → Database → Database)
      → World State
      → Result HttpError Document
      → Result RouteError Document × World State
  status_writes m before change rows w (err e) = refuse e w
  status_writes m before change rows w (ok found) =
      let doc = change found in
      write_both m.commits w
        (update_document_payload c doc.id doc.classification (status_fields doc.status)) (pure tt)
        (update_document_payload c doc.id doc.classification (status_fields before)) (rows doc w.db)
        doc

  unfoldable pub reject :
      Moment → UserClaims → Uuid → String → World State → Result RouteError Document × World State
  reject m user doc_id reason w =
      status_writes m pending_review (rejected_row user m.now reason)
        (reject_rows user m.now reason) w (load_pending w.db doc_id user)

  unfoldable pub suspend :
      Moment → UserClaims → Uuid → String → World State → Result RouteError Document × World State
  suspend m user doc_id reason w =
      status_writes m approved suspended_row (suspend_rows user m.now reason) w
        (load_approved w.db doc_id user)
