-- ===== src/Purge/Destroy.antt =====
-- services/common/common/purge.py: `purge_document`.
pub mod Destroyed
pub mod Failed
pub mod Flagged
use nexus_rag.Base.{
  ℕ, String, ◌≡◌, Bool, true, false, not, ◌||◌, Option, none, some, is_some, is_truthy, List, [],
  ◌∷◌, Result, ok, err, if◌then◌else◌,
}
use nexus_rag.Document.{
  Uuid, Time, Document, Status, approved, superseded, purging, purged, status_eq,
}
use nexus_rag.Vector.Exec.{StoreError}
use nexus_rag.Vector.Client.{Client}
use nexus_rag.Vector.Store.{delete_document_chunks}
use nexus_rag.Database.{
  Database, find_document, save_document, add_entry, AuditLogEntry, Purged, purge_entry,
}
use nexus_rag.Purge.Stores.{
  ObjectStore, DeleteError, file_not_found, other_failure, Stores, PurgeError, document_not_found,
  chunks_failed, original_failed, commit_failed, Course,
}

abbrev scrubbed : String
scrubbed = "[purged]"

-- Who purges and why, and who asked for it first.
pub record Order : Type 0 where
  pub actor_sub : String
  pub actor_username : String
  pub reason : String
  pub requested_by_sub : Option String
  pub requested_by_username : Option String

-- EVER_RETRIEVABLE_STATUSES
unfoldable ever_retrievable : Status → Bool
ever_retrievable s = status_eq s approved || status_eq s superseded || status_eq s purging

unfoldable pub chat_plane_action_required : Document → Bool
unfolding ever_retrievable
chat_plane_action_required doc = ever_retrievable doc.status || is_some doc.first_approved_at

abbrev or_reviewed : Option Time → Option Time → Option Time
or_reviewed none reviewed = reviewed
or_reviewed (some t) reviewed = some t

unfoldable pub retrievable_since : Document → Option Time
retrievable_since doc =
    if chat_plane_action_required doc
    then or_reviewed doc.first_approved_at doc.reviewed_at
    else none

abbrev pub purging_row : Time → Document → Document
purging_row now doc = record doc { status = purging; updated_at = now }

unfoldable pub tombstone : Time → Document → Document
tombstone now doc = record doc {
  status = purged;
  filename = scrubbed;
  source_originator = scrubbed;
  doc_type = scrubbed;
  classification = scrubbed;
  releasability = [];
  access_scope = [];
  program_community = none;
  effective_date = none;
  rejection_reason = none;
  processing_error = none;
  original_object_key = none;
  content_sha256 = none;
  chunk_count = 0;
  updated_at = now;
}

unfoldable pub purge_record : Order → Time → Document → AuditLogEntry
purge_record order now doc = record {
  actor_sub = order.actor_sub;
  actor_username = order.actor_username;
  action = purge_entry (record {
    reason = order.reason;
    status_before_purge = doc.status;
    chunks_destroyed = doc.chunk_count;
    original_destroyed = is_some doc.original_object_key;
    chat_plane_action_required = chat_plane_action_required doc;
    retrievable_since = retrievable_since doc;
    requested_by_sub = order.requested_by_sub;
    requested_by_username = order.requested_by_username;
  });
  target_id = doc.id;
  created_at = now;
}

module _ (c : Client) (o : ObjectStore) where
  -- 4. the tombstone and the audit entry, in one commit
  abbrev pub bury :
      Course
      → Order
      → Document
      → Stores c.State o.State
      → Result PurgeError Document × Stores c.State o.State
  bury m order doc w =
      if m.last_commits
      then (
        ok (tombstone m.purged_at doc),
        record w {
          db =
              add_entry (purge_record order m.purged_at doc)
                (save_document (tombstone m.purged_at doc) w.db);
        },
      )
      else (err commit_failed, w)

  abbrev pub original_deleted :
      Course
      → Order
      → Document
      → Stores c.State o.State
      → Result DeleteError (Unit {0}) × o.State
      → Result PurgeError Document × Stores c.State o.State
  original_deleted m order doc w (ok tt, s) = bury m order doc (record w { objects = s })
  original_deleted m order doc w (err file_not_found, s) =
      bury m order doc (record w { objects = s })
  original_deleted m order doc w (err other_failure, s) =
      (err original_failed, record w { objects = s })

  -- 3. the original, if the row has a key
  abbrev pub delete_original :
      Course
      → Order
      → Document
      → Option String
      → Stores c.State o.State
      → Result PurgeError Document × Stores c.State o.State
  delete_original m order doc none w = bury m order doc w
  delete_original m order doc (some key) w =
      if is_truthy key
      then original_deleted m order doc w (o.delete key w.objects)
      else bury m order doc w

  -- 2. the chunks
  abbrev pub chunks_deleted :
      Course
      → Order
      → Document
      → Stores c.State o.State
      → Result StoreError (Unit {0}) × c.State
      → Result PurgeError Document × Stores c.State o.State
  chunks_deleted m order doc w (ok tt, s) =
      delete_original m order doc doc.original_object_key (record w { chunks = s })
  chunks_deleted m order doc w (err e, s) = (err (chunks_failed e), record w { chunks = s })

  -- 1. the row is marked, in a commit of its own
  unfoldable pub destroy :
      Course
      → Order
      → Document
      → Stores c.State o.State
      → Result PurgeError Document × Stores c.State o.State
  destroy m order doc w =
      if m.first_commits
      then chunks_deleted m order doc
          (record w { db = save_document (purging_row m.marked_at doc) w.db })
          (delete_document_chunks c doc.id doc.classification w.chunks)
      else (err commit_failed, w)

  abbrev pub purge_row :
      Course
      → Order
      → Option Document
      → Stores c.State o.State
      → Result PurgeError Document × Stores c.State o.State
  purge_row m order none w = (err document_not_found, w)
  purge_row m order (some doc) w =
      if status_eq doc.status purged then (ok doc, w) else destroy m order doc w

  unfoldable pub purge_document :
      Course
      → Order
      → Uuid
      → Stores c.State o.State
      → Result PurgeError Document × Stores c.State o.State
  purge_document m order id w = purge_row m order (find_document id w.db.documents) w
