-- ===== src/Curation/Changes.antt =====
-- services/ingestion-api/app/routes/curate.py: what a decision checks before it writes, and the rows,
-- fields and entries that it writes.
use nexus_rag.Base.{
  String, false, Option, none, some, is_truthy, Result, ok, err, ◌>>=◌, ◌>>◌, require,
  if◌then◌else◌,
}
use Prim.Native.String.{◌++◌}
use nexus_rag.Document.{
  Uuid, Time, Document, Status, pending_review, approved, rejected, superseded, status_eq, Decision,
  was_approved, was_rejected, was_suspended, Notification,
}
use nexus_rag.Access.Claims.{UserClaims}
use nexus_rag.Vector.Client.{Fields, or_keep}
use nexus_rag.Database.{
  Database, find_document, save_document, add_entry, add_notification, AuditLogEntry, Action,
  Corrections, supersede_entry, approve_entry, reject_entry, suspend_entry,
}
use nexus_rag.Curation.Http.{HttpError, conflict_superseded_missing, conflict_superseded_status}
use nexus_rag.Curation.Authority.{check_curator_authority, load_pending}

-- `if corrections.classification:`
abbrev pub truthy : Option String → Option String
truthy none = none
truthy (some s) = if is_truthy s then some s else none

abbrev pub correct : Corrections → Document → Document
correct k doc = record doc {
  classification = or_keep (truthy k.classification) doc.classification;
  releasability = or_keep k.releasability doc.releasability;
  access_scope = or_keep k.access_scope doc.access_scope;
}

-- the body of `if corrections:`
unfoldable pub apply_corrections :
    Database → UserClaims → Option Corrections → Document → Result HttpError Document
apply_corrections db user none doc = ok doc
apply_corrections db user (some k) doc = do
  check_curator_authority user (correct k doc) db.classification_levels
  ok (correct k doc)

abbrev pub superseded_row : Database → UserClaims → Option Document → Result HttpError Document
superseded_row db user none = err conflict_superseded_missing
superseded_row db user (some old_doc) = do
  check_curator_authority user old_doc db.classification_levels
  require (status_eq old_doc.status approved) (conflict_superseded_status old_doc.status)
  ok old_doc

unfoldable pub validate_supersede : Database → UserClaims → Uuid → Result HttpError Document
validate_supersede db user id = superseded_row db user (find_document id db.documents)

abbrev pub old_version : Database → UserClaims → Option Uuid → Result HttpError (Option Document)
old_version db user none = ok none
old_version db user (some id) = validate_supersede db user id >>= λ old_doc. ok (some old_doc)

-- what `approve` does before it writes anything
unfoldable pub approve_checks :
    Database
    → UserClaims
    → Uuid
    → Option Corrections
    → Result HttpError (Document × Document × Option Document)
approve_checks db user doc_id corrections = load_pending db doc_id user >>= λ found.
    apply_corrections db user corrections found >>= λ doc.
    old_version db user doc.supersedes_document_id >>= λ old_doc. ok (found, doc, old_doc)

abbrev pub or_now : Option Time → Time → Option Time
or_now none now = some now
or_now (some t) now = some t

unfoldable pub approved_row : UserClaims → Time → Document → Document
approved_row user now doc = record doc {
  status = approved;
  reviewed_by_sub = some user.sub;
  reviewed_at = some now;
  first_approved_at = or_now doc.first_approved_at now;
}

abbrev pub status_fields : Status → Fields
status_fields s = record {
  classification = none;
  releasability = none;
  access_scope = none;
  status = some s;
}

-- `qdrant_fields`; a corrected value is the row's
abbrev pub approve_fields : Option Corrections → Fields
approve_fields none = status_fields approved
approve_fields (some k) = record {
  classification = truthy k.classification;
  releasability = k.releasability;
  access_scope = k.access_scope;
  status = some approved;
}

abbrev pub entry : UserClaims → Time → Uuid → Action → AuditLogEntry
entry user now id action = record {
  actor_sub = user.sub;
  actor_username = user.preferred_username;
  action = action;
  target_id = id;
  created_at = now;
}

abbrev pub notify : Document → Time → Decision → String → Notification
notify doc now decision message = record {
  recipient_sub = doc.uploader_sub;
  document_id = doc.id;
  decision = decision;
  message = message;
  read = false;
  created_at = now;
}

abbrev pub superseded_old : Time → Document → Document
superseded_old now old_doc = record old_doc { status = superseded; updated_at = now }

-- the rows of `_execute_supersede`
abbrev pub execute_supersede : UserClaims → Time → Option Document → Uuid → Database → Database
execute_supersede user now none new_id db = db
execute_supersede user now (some old_doc) new_id db =
    add_entry (entry user now old_doc.id (supersede_entry new_id))
      (save_document (superseded_old now old_doc) db)

unfoldable pub approve_rows :
    UserClaims → Time → Option Corrections → Option Document → Document → Database → Database
approve_rows user now corrections old_doc doc db =
    add_notification
      (notify doc now was_approved ("Your document '" ++ doc.filename ++ "' was approved."))
      (add_entry (entry user now doc.id (approve_entry corrections doc.content_sha256))
        (save_document doc (execute_supersede user now old_doc doc.id db)))

unfoldable pub rejected_row : UserClaims → Time → String → Document → Document
rejected_row user now reason doc = record doc {
  status = rejected;
  rejection_reason = some reason;
  reviewed_by_sub = some user.sub;
  reviewed_at = some now;
}

unfoldable pub reject_rows : UserClaims → Time → String → Document → Database → Database
reject_rows user now reason doc db =
    add_notification
      (notify doc now was_rejected
        ("Your document '" ++ doc.filename ++ "' was rejected: " ++ reason))
      (add_entry (entry user now doc.id (reject_entry reason doc.content_sha256))
        (save_document doc db))

unfoldable pub suspended_row : Document → Document
suspended_row doc = record doc {
  status = pending_review;
  reviewed_by_sub = none;
  reviewed_at = none;
}

unfoldable pub suspend_rows : UserClaims → Time → String → Document → Database → Database
suspend_rows user now reason doc db =
    add_notification
      (notify doc now was_suspended
        ("Your document '" ++ doc.filename ++ "' was suspended: " ++ reason))
      (add_entry (entry user now doc.id (suspend_entry reason doc.content_sha256))
        (save_document doc db))
